-- ===== src/Enrichment/Enqueue.antt =====
-- Jobs that are added to the queue, and the queue's counts (internal/enrichment/worker.go:
-- EnqueueSeed, EnqueueVINDecode; internal/store/enrichment.go: HasRecentJob, EnrichmentStats).
use mechmind.Base.{
  ℕ, keep, zero, suc, ◌-◌, Bool, true, false, ◌&&◌, Option, none, some, List, [], ◌∷◌, ◌++◌, ltb,
  length,
}
use mechmind.Text.{Text, codes, text_eq}
use mechmind.Enrichment.{
  JobStatus, pending, running, finished, failed_for_good, JobRow, Queue, Service, next, by_fault,
  enqueue_job,
}

-- 24 hours.
abbrev pub a_day : ℕ
a_day = 86400000000000

unfoldable pub is_live : JobStatus → Bool
is_live failed_for_good = false
is_live s = true

-- Whether a job is of the kind, made after the time, and not given up.
unfoldable pub is_recent : Text → ℕ → JobRow → Bool
unfolding text_eq is_live
is_recent kind since j = text_eq j.kind kind && (ltb since j.created_at && is_live j.status)

-- The column's text.
unfoldable pub status_name : JobStatus → Text
status_name pending = codes "pending"
status_name running = codes "running"
status_name finished = codes "done"
status_name failed_for_good = codes "failed"

unfoldable pub has_status : JobStatus → JobRow → Bool
unfolding status_name text_eq
has_status s j = text_eq (status_name j.status) (status_name s)

-- The count of a status, if there is any job of it.
unfoldable pub count_status : JobStatus → List JobRow → List (Text × ℕ)
unfolding has_status status_name
count_status s js = unless_none (length (keep (has_status s) js))
  where
    unless_none : ℕ → List (Text × ℕ)
    unless_none zero = []
    unless_none (suc n) = (status_name s, suc n) ∷ []

unfoldable pub status_counts : List JobRow → List (Text × ℕ)
unfolding count_status
status_counts js =
    count_status pending js
    ++ count_status running js
    ++ count_status finished js
    ++ count_status failed_for_good js

-- The payloads, as JSON.
pub record Payloads : Type 0 where
  pub vin_payload : Text → Text → Text
  pub seed_payload : Text

module _ (V : Service) (P : Payloads) where
  open V use {fault, clock}

  -- The time is the one of the query; a time before the first day is 0.
  unfoldable pub has_recent_job : Text → ℕ → Queue → (Option Text × Bool) × Queue
  unfolding is_recent
  has_recent_job kind within q =
      by_fault (fault q.statements) (λ e. ((some e, false), next q))
        (
          (none, ltb 0 (length (keep (is_recent kind (clock q.statements - within)) q.jobs))),
          next q,
        )

  unfoldable pub enqueue_vin_decode : Text → Text → Queue → Option Text × Queue
  unfolding enqueue_job
  enqueue_vin_decode vehicle vin q =
      enqueue_job V (codes "vin_decode") (P.vin_payload vehicle vin) (clock q.statements) q

  -- An error of the query, or a recent seed, ends it.
  unfoldable pub seed_unless : (Option Text × Bool) × Queue → Option Text × Queue
  unfolding enqueue_job
  seed_unless ((some e, recent), q) = (some e, q)
  seed_unless ((none, true), q) = (none, q)
  seed_unless ((none, false), q) =
      enqueue_job V (codes "seed_catalog") P.seed_payload (clock q.statements) q

  unfoldable pub enqueue_seed : Queue → Option Text × Queue
  unfolding has_recent_job seed_unless
  enqueue_seed q = seed_unless (has_recent_job (codes "seed_catalog") a_day q)
