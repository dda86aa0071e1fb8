-- ===== src/Enrichment/Worker.antt =====
-- The worker (internal/enrichment/worker.go: tick, Process, seedCatalog). What decodes a VIN and
-- fetches
-- recalls is a parameter, with the list of the market's models.
use mechmind.Enrichment.Market.{max_seed_year, min_model_year, seed_year_step}
use mechmind.Base.{
  ℕ, zero, suc, ◌+◌, ◌*◌, Option, none, some, List, [], ◌∷◌, ◌++◌, map, leb, if◌then◌else◌,
}
use mechmind.Text.{Text, codes, text_eq}
use mechmind.Enrichment.{
  no_job, enqueue_job, claimed, complete_job, claim_error, by_fault, fail_job, claim_job, Service,
  Queue, JobRow, Claimed,
}

pub record MarketModel : Type 0 where
  pub nhtsa_name : Text
  pub nhtsa_model : Text

-- The error, if any, of a part of the work, and the queue and the rest of the world after it.
pub record Work : Type 1 where
  pub World : Type 0
  pub vin_decode : Text → Queue × World → Option Text × (Queue × World)
  pub recalls_mmy : Text → Queue × World → Option Text × (Queue × World)
  -- The models, or the error of their statement; and the payload for one of them and a year.
  pub models : World → (Option Text × List MarketModel) × World
  pub payload : MarketModel → ℕ → Text

-- Two minutes.
abbrev pub retry_delay : ℕ
retry_delay = 120000000000

-- The years of the seed: from the first one, by steps.
unfoldable pub seed_years : ℕ → ℕ → List ℕ
seed_years zero year = []
seed_years (suc n) year =
    let rest = seed_years n (year + seed_year_step) in
    if leb year max_seed_year then year ∷ rest else []

-- One job for each model and year, in their order.
unfoldable pub seed_pairs : List MarketModel → List ℕ → List (MarketModel × ℕ)
seed_pairs [] years = []
seed_pairs (m ∷ ms) years = map (λ y. (m, y)) years ++ seed_pairs ms years

-- What is done with a claimed job; without one there is nothing to do.
abbrev pub on_claim :
    {W : Type 0} → Claimed × Queue → W → (JobRow → Queue × W → Queue × W) → Queue × W
on_claim (no_job, q) w k = (q, w)
on_claim (claim_error e, q) w k = (q, w)
on_claim (claimed j, q) w k = k j (q, w)

module _ (V : Service) (J : Work) where
  open V use {clock}
  open J use {World}

  -- The jobs are 500 ms apart; an error ends the seed.
  unfoldable pub enqueue_all : ℕ → List (MarketModel × ℕ) → Queue → Option Text × Queue
  unfolding enqueue_job
  enqueue_all n [] q = (none, q)
  enqueue_all n ((m, y) ∷ rest) q =
      let (e, q1) =
        enqueue_job V (codes "recalls_mmy") (J.payload m y) (clock q.statements + n * 500000000)
          q in
      let more = enqueue_all (suc n) rest q1 in by_fault e (λ t. (some t, q1)) more

  -- The years from 2010 to 2024 by steps of 2 are eight.
  unfoldable pub seed_catalog : Queue × World → Option Text × (Queue × World)
  unfolding enqueue_all seed_pairs seed_years
  seed_catalog (q, w) =
      let ((e, models), w1) = J.models w in
      let (e1, q1) = enqueue_all 0 (seed_pairs models (seed_years 15 min_model_year)) q in
      by_fault e (λ t. (some t, (q, w1))) (e1, (q1, w1))

  -- `Process`, by the kind of the job.
  unfoldable pub process : JobRow → Queue × World → Option Text × (Queue × World)
  unfolding seed_catalog text_eq
  process j s =
      let decoded = J.vin_decode j.payload s in
      let fetched = J.recalls_mmy j.payload s in
      let seeded = seed_catalog s in
      if text_eq j.kind (codes "vin_decode")
      then decoded
      else if text_eq j.kind (codes "recalls_mmy")
      then fetched
      else if text_eq j.kind (codes "seed_catalog")
      then seeded
      else (none, s)

  -- What is written on the row of a job, by the end of its work; an error of that is not looked at.
  unfoldable pub settle_job : JobRow → Option Text × (Queue × World) → Queue × World
  unfolding fail_job complete_job
  settle_job j (some msg, (q, w)) =
      ((fail_job V j.id msg (clock q.statements + retry_delay) q).1, w)
  settle_job j (none, (q, w)) = ((complete_job V j.id q).1, w)

  -- The turns of `tick`: each claims a job, and without one the tick is over.
  unfoldable pub turns : ℕ → Queue × World → Queue × World
  unfolding claim_job process settle_job
  turns zero s = s
  turns (suc n) (q, w) = on_claim (claim_job V q) w (λ j s. turns n (settle_job j (process j s)))

  -- `tick`, with the setting that it has read.
  unfoldable pub tick : Text → Queue × World → Queue × World
  unfolding turns text_eq
  tick enabled s = let done = turns 5 s in if text_eq enabled (codes "false") then s else done
