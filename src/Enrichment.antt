-- ===== src/Enrichment.antt =====
-- The queue of enrichment jobs (internal/store/enrichment.go: EnqueueEnrichmentJob, HasRecentJob,
-- ClaimEnrichmentJob, CompleteEnrichmentJob, FailEnrichmentJob). As with the accounts, a statement
-- is its
-- effect on the rows, or its error.
pub mod Market
pub mod Worker
pub mod Adds
pub mod Idle
pub mod Enqueue
pub mod Nhtsa
pub mod Decode
use mechmind.Base.{
  take, ℕ, ◌+◌, Bool, true, false, ◌&&◌, Option, none, some, List, [], ◌∷◌, ◌++◌, ltb, leb,
  if◌then◌else◌, length,
}
use mechmind.Text.{Text, codes, text_eq}

pub data JobStatus : Type 0 where
  pending running finished failed_for_good : JobStatus

-- Times are nanoseconds. No error is the empty text.
pub record JobRow : Type 0 where
  pub id : Text
  pub kind : Text
  pub payload : Text
  pub status : JobStatus
  pub attempts : ℕ
  pub last_error : Text
  pub created_at : ℕ
  pub run_after : ℕ

pub record Queue : Type 0 where
  pub jobs : List JobRow
  pub statements : ℕ

-- The database, by the number of the statement: its error, its clock, and the identifier of a new
-- row.
pub record Service : Type 0 where
  pub fault : ℕ → Option Text
  pub clock : ℕ → ℕ
  pub new_id : ℕ → Text

pub data Claimed : Type 0 where
  no_job : Claimed
  claim_error : Text → Claimed
  claimed : JobRow → Claimed

abbrev pub next : Queue → Queue
next q = record q { statements = q.statements + 1 }

-- Which of two ways a statement goes.
abbrev pub by_fault : {A : Type 0} → Option Text → (Text → A) → A → A
by_fault none f a = a
by_fault (some e) f a = f e

abbrev pub is_pending : JobStatus → Bool
is_pending pending = true
is_pending s = false

-- `truncateErr`.
unfoldable pub truncate_err : Text → Text
truncate_err s = if ltb 500 (length s) then take 500 s else s

-- Of two jobs the one that is due earlier.
abbrev pub earlier : JobRow → Option JobRow → Option JobRow
earlier j none = some j
earlier j (some k) = if leb j.run_after k.run_after then some j else some k

-- The pending job that is due and was due first.
unfoldable pub first_due : ℕ → List JobRow → Option JobRow
first_due now [] = none
first_due now (j ∷ js) =
    let rest = first_due now js in
    if is_pending j.status && leb j.run_after now then earlier j rest else rest

-- UPDATE … WHERE id = $1.
unfoldable pub set_rows : Text → (JobRow → JobRow) → List JobRow → List JobRow
unfolding text_eq
set_rows id f [] = []
set_rows id f (j ∷ js) = (if text_eq j.id id then f j else j) ∷ set_rows id f js

unfoldable pub start_row : JobRow → JobRow
start_row j = record j { status = running; attempts = j.attempts + 1 }

unfoldable pub finish_row : JobRow → JobRow
finish_row j = record j { status = finished; last_error = [] }

-- After the fifth attempt the job is given up.
unfoldable pub fail_row : Text → ℕ → JobRow → JobRow
unfolding truncate_err
fail_row msg retry j = record j {
  status = if leb 5 j.attempts then failed_for_good else pending;
  last_error = truncate_err msg;
  run_after = retry;
}

module _ (V : Service) where
  open V use {fault, clock, new_id}

  -- One UPDATE that is its own transaction.
  unfoldable pub change_rows : Text → (JobRow → JobRow) → Queue → Option Text × Queue
  unfolding set_rows
  change_rows id f q =
      by_fault (fault q.statements) (λ e. (some e, next q))
        (none, record (next q) { jobs = set_rows id f q.jobs })

  unfoldable pub complete_job : Text → Queue → Option Text × Queue
  unfolding change_rows finish_row
  complete_job id q = change_rows id finish_row q

  unfoldable pub fail_job : Text → Text → ℕ → Queue → Option Text × Queue
  unfolding change_rows fail_row
  fail_job id msg retry q = change_rows id (fail_row msg retry) q

  unfoldable pub new_row : Text → Text → ℕ → Queue → JobRow
  new_row kind payload after q = record {
    id = new_id q.statements;
    kind = kind;
    payload = payload;
    status = pending;
    attempts = 0;
    last_error = [];
    created_at = clock q.statements;
    run_after = after;
  }

  unfoldable pub enqueue_job : Text → Text → ℕ → Queue → Option Text × Queue
  unfolding new_row
  enqueue_job kind payload after q =
      by_fault (fault q.statements) (λ e. (some e, next q))
        (none, record (next q) { jobs = q.jobs ++ new_row kind payload after q ∷ [] })

  -- The transaction of a claim, once its job is known: the update and the commit.
  unfoldable pub take_job : Option JobRow → Queue → Claimed × Queue
  unfolding set_rows start_row
  take_job none q = (no_job, q)
  take_job (some j) q =
      by_fault (fault q.statements) (λ e. (claim_error e, next q))
        (by_fault (fault (q.statements + 1)) (λ e. (claim_error e, next (next q)))
          (claimed j, record (next (next q)) { jobs = set_rows j.id start_row q.jobs }))

  -- BEGIN and the SELECT.
  unfoldable pub claim_job : Queue → Claimed × Queue
  unfolding first_due take_job
  claim_job q =
      by_fault (fault q.statements) (λ e. (claim_error e, next q))
        (by_fault (fault (q.statements + 1)) (λ e. (claim_error e, next (next q)))
          (take_job (first_due (clock (q.statements + 1)) q.jobs) (next (next q))))
