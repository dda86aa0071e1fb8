-- ===== src/Enrichment/Decode/Work.antt =====
-- The jobs of the worker (internal/enrichment/worker.go: vinDecode, recallsMMY), as the work of its
-- ticks.
use mechmind.Base.{Option, none, some, List, [], if◌then◌else◌}
use mechmind.Base.Int.{pos}
use mechmind.Base.Float.{Floats}
use mechmind.Text.{Text}
use mechmind.Http.{Result, fails, gives}
use mechmind.Store.Tables.{Tables, Server}
use mechmind.Enrichment.{Queue, Service}
use mechmind.Enrichment.Market.{in_market_scope}
use mechmind.Enrichment.Nhtsa.{LeanVin, LeanRecall, Network, Client}
use mechmind.Enrichment.Nhtsa.Methods.{decode_vin, recalls_by_mmy}
use mechmind.Enrichment.Decode.{
  MmyPayload, JobJson, Done, or_stop, keep_vin, keep_recalls, attach_again,
}
use mechmind.Enrichment.Worker.{tick, Work, MarketModel}

module _ (R : Floats) (G : Server R.F) (V : Service) (P : JobJson) (N : Network R.F)
    (c : Client) where
  abbrev pub Floor : Type 0
  Floor = Queue × (Tables × N.World)

  -- The end of a part of the work, with the network after it.
  abbrev ended : Done → N.World → Option Text × Floor
  ended (e, (q, t)) w = (e, (q, (t, w)))

  abbrev stopped : Text → Floor → Option Text × Floor
  stopped e s = (some e, s)

  -- What is made of an answer of vPIC.
  unfoldable pub on_lean : Text → Text → Result LeanVin → Floor → Option Text × Floor
  unfolding keep_vin
  on_lean id raw (fails e) s = stopped e s
  on_lean id raw (gives lean) (q, (t, w)) = ended (keep_vin G V P id raw lean q t) w

  unfoldable pub decode_for : Option Text → Text → Text → Floor → Option Text × Floor
  unfolding on_lean decode_vin
  decode_for none raw vin s = stopped (G.uuid_error raw) s
  decode_for (some id) raw vin (q, (t, w)) =
      let (lean, w1) = decode_vin R N c vin w in on_lean id raw lean (q, (t, w1))

  unfoldable pub vin_decode_of : Result (Text × Text) → Floor → Option Text × Floor
  unfolding decode_for
  vin_decode_of (fails e) s = stopped e s
  vin_decode_of (gives (raw, vin)) s = decode_for (G.parse_uuid raw) raw vin s

  unfoldable pub vin_decode : Text → Floor → Option Text × Floor
  unfolding vin_decode_of
  vin_decode payload s = vin_decode_of (P.read_vin payload) s

  unfoldable pub on_recalls : MmyPayload → Result (List LeanRecall) → Floor → Option Text × Floor
  unfolding keep_recalls attach_again
  on_recalls p (fails e) s = stopped e s
  on_recalls p (gives rs) (q, (t, w)) =
      ended (or_stop (keep_recalls G p rs t) q λ _ u. (none, (q, attach_again G p u))) w

  -- Outside the market nothing is asked for.
  unfoldable pub recalls_mmy_of : Result MmyPayload → Floor → Option Text × Floor
  unfolding on_recalls recalls_by_mmy in_market_scope
  recalls_mmy_of (fails e) s = stopped e s
  recalls_mmy_of (gives p) (q, (t, w)) =
      let (rs, w1) = recalls_by_mmy R N c p.make p.model p.year w in
      let kept = on_recalls p rs (q, (t, w1)) in
      if in_market_scope p.make p.year then kept else (none, (q, (t, w)))

  unfoldable pub recalls_mmy : Text → Floor → Option Text × Floor
  unfolding recalls_mmy_of
  recalls_mmy payload s = recalls_mmy_of (P.read_mmy payload) s

  -- The work of the worker's ticks; the list of the market's models is a parameter.
  unfoldable pub work :
      (Tables × N.World → (Option Text × List MarketModel) × (Tables × N.World)) → Work
  unfolding vin_decode recalls_mmy
  work models = record {
    World = Tables × N.World;
    vin_decode = vin_decode;
    recalls_mmy = recalls_mmy;
    models = models;
    payload = λ m y.
        P.write_mmy
          (record { vehicle_id = []; make = m.nhtsa_name; model = m.nhtsa_model; year = pos y });
  }

  -- A tick of the worker over the store and the network.
  unfoldable pub worker_tick :
      (Tables × N.World → (Option Text × List MarketModel) × (Tables × N.World))
      → Text
      → Floor
      → Floor
  unfolding work tick
  worker_tick models enabled s = tick V (work models) enabled s
