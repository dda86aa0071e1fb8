-- ===== src/Enrichment/Decode/Idle.antt =====
-- The jobs that the worker's own work leaves (internal/enrichment/worker.go: vinDecode, recallsMMY,
-- tick).
use mechmind.Base.{ℕ, All, Bool-cases, zero, suc, ◌≡◌, refl, inl, inr, Option, none, some, List}
use mechmind.Base.Float.{Floats}
use mechmind.Text.{Text, codes}
use mechmind.Http.{Result, fails, gives}
use mechmind.Store.{erred, holds}
use mechmind.Store.Tables.{Tables, Server, Kept}
use mechmind.Store.Recalls.{upsert_identity, upsert_enrichment, attach_recalls}
use mechmind.Enrichment.{Queue, Service}
use mechmind.Enrichment.Market.{in_market_scope}
use mechmind.Enrichment.Nhtsa.{LeanVin, LeanRecall, Network, Client}
use mechmind.Enrichment.Nhtsa.Methods.{decode_vin, recalls_by_mmy}
use mechmind.Enrichment.Worker.{MarketModel}
use mechmind.Enrichment.Adds.{Adds, Adds-same, IsIdle, OnlyAdds, enqueue_job-Adds}
use mechmind.Enrichment.Idle.{tick-IsIdle}
use mechmind.Enrichment.Decode.{
  mmy_of, MmyPayload, JobJson, Done, or_stop, ask_recalls, attach_for, keep_vin, keep_recalls,
  marked, engine_of, enrichment_row,
}
use mechmind.Enrichment.Decode.Work.{
  on_lean, decode_for, vin_decode_of, vin_decode, on_recalls, recalls_mmy_of, recalls_mmy, work,
  worker_tick,
}

or_stop-Adds :
    {A : Type 0} (q : Queue) (m : Kept A) (k : A → Tables → Done)
    → ((a : A) (t : Tables) → Adds q (k a t).1.0)
    → Adds q (or_stop m q k).1.0
or_stop-Adds q (erred e, t) k h = Adds-same q q refl
or_stop-Adds q (holds a, t) k h = h a t

module _ {F : Type 0} (G : Server F) (V : Service) (P : JobJson) where
  ask_recalls-Adds :
      (p : MmyPayload) (n : ℕ) (q : Queue) (t : Tables) → Adds q (ask_recalls G V P p n q t).1.0
  unfolding ask_recalls
  ask_recalls-Adds p zero q t =
      enqueue_job-Adds V (codes "recalls_mmy") (P.write_mmy p) (V.clock q.statements) q
  ask_recalls-Adds p (suc n) q t = Adds-same q q refl

  attach_for-Adds :
      (id : Text) (p : MmyPayload) (q : Queue) (t : Tables) → Adds q (attach_for G V P id p q t).1.0
  unfolding attach_for
  attach_for-Adds id p q t = elim (Bool-cases (in_market_scope p.make p.year)) [
    | inl inside ↦ rw inside (
        or_stop-Adds q (attach_recalls G id p.make p.model p.year t) _
          λ n u. ask_recalls-Adds p n q u)
    | inr beyond ↦ rw beyond (Adds-same q q refl)
  ]

  keep_vin-Adds :
      (id raw : Text) (lean : LeanVin) (q : Queue) (t : Tables)
      → Adds q (keep_vin G V P id raw lean q t).1.0
  unfolding keep_vin
  keep_vin-Adds id raw lean q t =
      let v = marked lean in
      or_stop-Adds q (upsert_identity G id v.make v.model v.year (engine_of v) t) _ λ _ t1.
        or_stop-Adds q (upsert_enrichment G (enrichment_row id v) t1) _
          λ _ t2. attach_for-Adds id (mmy_of raw v) q t2

module _ (R : Floats) (G : Server R.F) (V : Service) (P : JobJson) (N : Network R.F)
    (c : Client) where
  abbrev Models : Type 0
  Models = Tables × N.World → (Option Text × List MarketModel) × (Tables × N.World)

  on_lean-Adds :
      (id raw : Text) (r : Result LeanVin) (s : Queue × (Tables × N.World))
      → Adds s.0 (on_lean R G V P N c id raw r s).1.0
  unfolding on_lean
  on_lean-Adds id raw (fails e) s = Adds-same s.0 s.0 refl
  on_lean-Adds id raw (gives lean) (q, (t, w)) = keep_vin-Adds G V P id raw lean q t

  decode_for-Adds :
      (o : Option Text) (raw vin : Text) (s : Queue × (Tables × N.World))
      → Adds s.0 (decode_for R G V P N c o raw vin s).1.0
  unfolding decode_for
  decode_for-Adds none raw vin s = Adds-same s.0 s.0 refl
  decode_for-Adds (some id) raw vin (q, (t, w)) =
      let (lean, w1) = decode_vin R N c vin w in on_lean-Adds id raw lean (q, (t, w1))

  vin_decode_of-Adds :
      (r : Result (Text × Text)) (s : Queue × (Tables × N.World))
      → Adds s.0 (vin_decode_of R G V P N c r s).1.0
  unfolding vin_decode_of
  vin_decode_of-Adds (fails e) s = Adds-same s.0 s.0 refl
  vin_decode_of-Adds (gives (raw, vin)) s = decode_for-Adds (G.parse_uuid raw) raw vin s

  on_recalls-Adds :
      (p : MmyPayload) (r : Result (List LeanRecall)) (s : Queue × (Tables × N.World))
      → Adds s.0 (on_recalls R G V P N c p r s).1.0
  unfolding on_recalls
  on_recalls-Adds p (fails e) s = Adds-same s.0 s.0 refl
  on_recalls-Adds p (gives rs) (q, (t, w)) =
      or_stop-Adds q (keep_recalls G p rs t) _ λ _ u. Adds-same q q refl

  recalls_mmy_of-Adds :
      (r : Result MmyPayload) (s : Queue × (Tables × N.World))
      → Adds s.0 (recalls_mmy_of R G V P N c r s).1.0
  unfolding recalls_mmy_of
  recalls_mmy_of-Adds (fails e) s = Adds-same s.0 s.0 refl
  recalls_mmy_of-Adds (gives p) (q, (t, w)) =
      let (rs, w1) = recalls_by_mmy R N c p.make p.model p.year w in
      elim (Bool-cases (in_market_scope p.make p.year)) [
        | inl inside ↦ rw inside (on_recalls-Adds p rs (q, (t, w1)))
        | inr beyond ↦ rw beyond (Adds-same q q refl)
      ]

  work-OnlyAdds : (models : Models) → OnlyAdds (work R G V P N c models)
  unfolding OnlyAdds work vin_decode recalls_mmy
  work-OnlyAdds models = (
    λ payload s. vin_decode_of-Adds (P.read_vin payload) s,
    λ payload s. recalls_mmy_of-Adds (P.read_mmy payload) s,
  )

  -- Where no statement of the queue fails, a tick of the worker leaves no job running if none was:
  -- every job that it claims is finished, queued again or given up, whatever the store and the
  -- network answer.
  pub worker_tick-IsIdle :
      ((n : ℕ) → V.fault n ≡ none)
      → (models : Models) (enabled : Text) (s : Queue × (Tables × N.World)) → All IsIdle s.0.jobs
      → All IsIdle (worker_tick R G V P N c models enabled s).0.jobs
  unfolding worker_tick work
  worker_tick-IsIdle fine models enabled s h =
      tick-IsIdle V (work R G V P N c models) fine (work-OnlyAdds models) enabled s h
