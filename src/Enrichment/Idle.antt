-- ===== src/Enrichment/Idle.antt =====
-- The jobs that a tick leaves behind (internal/enrichment/worker.go: tick).
use mechmind.Enrichment.Adds.{process-Adds, is_running, Adds, IsIdle, OnlyAdds}
use mechmind.Enrichment.Worker.{retry_delay, process, settle_job, tick, turns, on_claim, Work}
use mechmind.Base.{
  some_none, All-append, ◌∙◌, clash, Bool-cases, ℕ, All, zero, suc, ◌+◌, ◌≡◌, refl, sym, ap, inl,
  inr, false, Option, none, some, List, [], ◌∷◌, leb,
}
use mechmind.Text.{Text, codes, text_eq}
use mechmind.Enrichment.{
  change_rows, complete_job, no_job, first_due, claimed, fail_job, take_job, next, by_fault,
  claim_job, claim_error, start_row, fail_row, set_rows, finish_row, JobRow, Queue, Service,
  Claimed,
}

-- Only rows of this identifier are running.
IsIdleBut : Text → JobRow → Type 0
IsIdleBut id j = text_eq j.id id ≡ false → is_running j.status ≡ false

set_rows-IsIdle :
    (id : Text) (f : JobRow → JobRow)
    → ((j : JobRow) → IsIdle (f j))
    → (js : List JobRow) → All (IsIdleBut id) js
    → All IsIdle (set_rows id f js)
unfolding set_rows IsIdleBut IsIdle
set_rows-IsIdle id f stops [] h = tt
set_rows-IsIdle id f stops (j ∷ js) (p, h) = elim (Bool-cases (text_eq j.id id)) [
  | inl hit ↦ rw hit (stops j, set_rows-IsIdle id f stops js h)
  | inr miss ↦ rw miss (p miss, set_rows-IsIdle id f stops js h)
]

start_row-IsIdleBut :
    (id : Text) (js : List JobRow) → All IsIdle js → All (IsIdleBut id) (set_rows id start_row js)
unfolding set_rows IsIdleBut IsIdle start_row
start_row-IsIdleBut id [] h = tt
start_row-IsIdleBut id (j ∷ js) (p, h) = elim (Bool-cases (text_eq j.id id)) [
  | inl hit ↦ rw hit (λ k. clash (sym hit ∙ k), start_row-IsIdleBut id js h)
  | inr miss ↦ rw miss (λ k. p, start_row-IsIdleBut id js h)
]

finish_row-IsIdle : (j : JobRow) → IsIdle (finish_row j)
unfolding finish_row IsIdle
finish_row-IsIdle j = refl

fail_row-IsIdle : (msg : Text) (retry : ℕ) (j : JobRow) → IsIdle (fail_row msg retry j)
unfolding fail_row IsIdle
fail_row-IsIdle msg retry j = elim (Bool-cases (leb 5 j.attempts)) [
  | inl over ↦ rw over refl
  | inr again ↦ rw again refl
]

IsIdle-IsIdleBut : (id : Text) (js : List JobRow) → All IsIdle js → All (IsIdleBut id) js
unfolding IsIdle IsIdleBut
IsIdle-IsIdleBut id [] h = tt
IsIdle-IsIdleBut id (j ∷ js) (p, h) = (λ k. p, IsIdle-IsIdleBut id js h)

Adds-IsIdleBut :
    (id : Text) (a b : Queue) → Adds a b → All (IsIdleBut id) a.jobs → All (IsIdleBut id) b.jobs
unfolding Adds
Adds-IsIdleBut id a b (new, e, h) ha =
    rw e (All-append (IsIdleBut id) a.jobs new ha (IsIdle-IsIdleBut id new h))

module _ (V : Service) (J : Work) where
  open V use {fault, clock}

  -- A claim starts the rows of its job and changes no other; without one no row changes.
  IsClaim : Queue → Claimed × Queue → Type 0
  IsClaim q (no_job, q1) = q1.jobs ≡ q.jobs
  IsClaim q (claim_error e, q1) = q1.jobs ≡ q.jobs
  IsClaim q (claimed j, q1) = q1.jobs ≡ set_rows j.id start_row q.jobs

  by_fault-IsClaim :
      (q : Queue) (o : Option Text) (q1 : Queue) (r : Claimed × Queue)
      → q1.jobs ≡ q.jobs
      → IsClaim q r
      → IsClaim q (by_fault o (λ e. (claim_error e, q1)) r)
  unfolding IsClaim
  by_fault-IsClaim q none q1 r h k = k
  by_fault-IsClaim q (some e) q1 r h k = h

  take_job-IsClaim :
      (q p : Queue) (o : Option JobRow) → p.jobs ≡ q.jobs → IsClaim q (take_job V o p)
  unfolding take_job IsClaim
  take_job-IsClaim q p none h = h
  take_job-IsClaim q p (some j) h = by_fault-IsClaim q (fault p.statements) (next p) _ h (
      by_fault-IsClaim q (fault (p.statements + 1)) (next (next p)) _ h
        (ap (λ (js : List JobRow). set_rows j.id start_row js) h))

  claim_job-IsClaim : (q : Queue) → IsClaim q (claim_job V q)
  unfolding claim_job
  claim_job-IsClaim q = by_fault-IsClaim q (fault q.statements) (next q) _ refl (
      by_fault-IsClaim q (fault (q.statements + 1)) (next (next q)) _ refl
        (take_job-IsClaim q (next (next q)) (first_due (clock (q.statements + 1)) q.jobs) refl))

  written-IsIdle :
      (o : Option Text) (q1 q2 : Queue)
      → o ≡ none
      → All IsIdle q2.jobs
      → All IsIdle (by_fault {A = Option Text × Queue} o (λ e. (some e, q1)) (none, q2)).1.jobs
  written-IsIdle none q1 q2 fine h = h
  written-IsIdle (some e) q1 q2 fine h = some_none (sym fine)

  settle_job-IsIdle :
      ((n : ℕ) → fault n ≡ none)
      → (j : JobRow) (r : Option Text × (Queue × J.World)) → All (IsIdleBut j.id) r.1.0.jobs
      → All IsIdle (settle_job V J j r).0.jobs
  unfolding settle_job fail_job complete_job change_rows
  settle_job-IsIdle fine j (none, (q, w)) h =
      written-IsIdle (fault q.statements) (next q) _ (fine q.statements)
        (set_rows-IsIdle j.id finish_row finish_row-IsIdle q.jobs h)
  settle_job-IsIdle fine j (some msg, (q, w)) h =
      let retry = clock q.statements + retry_delay in
      written-IsIdle (fault q.statements) (next q) _ (fine q.statements)
        (set_rows-IsIdle j.id (fail_row msg retry) (fail_row-IsIdle msg retry) q.jobs h)

  on_claim-IsIdle :
      (q : Queue) (w : J.World) (r : Claimed × Queue)
      → (k : JobRow → Queue × J.World → Queue × J.World) → IsClaim q r
      → All IsIdle q.jobs
      → ((j : JobRow) (s : Queue × J.World)
          → All (IsIdleBut j.id) s.0.jobs
          → All IsIdle (k j s).0.jobs)
      → All IsIdle (on_claim r w k).0.jobs
  unfolding IsClaim
  on_claim-IsIdle q w (no_job, q1) k e h go = rw e h
  on_claim-IsIdle q w (claim_error m, q1) k e h go = rw e h
  on_claim-IsIdle q w (claimed j, q1) k e h go =
      go j (q1, w) (rw e (start_row-IsIdleBut j.id q.jobs h))

  turns-IsIdle :
      ((n : ℕ) → fault n ≡ none)
      → OnlyAdds J
      → (n : ℕ) (s : Queue × J.World) → All IsIdle s.0.jobs
      → All IsIdle (turns V J n s).0.jobs
  unfolding turns
  turns-IsIdle fine adds zero s h = h
  turns-IsIdle fine adds (suc n) (q, w) h =
      on_claim-IsIdle q w (claim_job V q) _ (claim_job-IsClaim q) h λ j s k.
        turns-IsIdle fine adds n _ (
          settle_job-IsIdle fine j (process V J j s)
            (Adds-IsIdleBut j.id s.0 (process V J j s).1.0 (process-Adds V J adds j s) k))

  -- Where no statement of the queue fails and the work only adds jobs that are not running, a tick
  -- leaves no job running if none was: every job that it claims is finished, queued again or given
  -- up, whatever its work returned.
  pub tick-IsIdle :
      ((n : ℕ) → fault n ≡ none)
      → OnlyAdds J
      → (enabled : Text) (s : Queue × J.World) → All IsIdle s.0.jobs
      → All IsIdle (tick V J enabled s).0.jobs
  unfolding tick
  tick-IsIdle fine adds enabled s h = elim (Bool-cases (text_eq enabled (codes "false"))) [
    | inl off ↦ rw off h
    | inr on ↦ rw on (turns-IsIdle fine adds 5 s h)
  ]
