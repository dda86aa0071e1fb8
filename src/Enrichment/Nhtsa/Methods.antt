-- ===== src/Enrichment/Nhtsa/Methods.antt =====
-- The methods of the client of NHTSA's services (internal/enrichment/nhtsa.go: DecodeVIN,
-- RecallsByMMY).
use mechmind.Base.{is_some, Bool, not, ◌&&◌, Option, none, some, List, [], ◌∷◌, ◌++◌, if◌then◌else◌}
use mechmind.Base.Int.{ℤ}
use mechmind.Base.Float.{Floats}
use mechmind.Text.{Text, codes, text_eq, trim_space, to_upper, show_int}
use mechmind.Text.Map.{get_key}
use mechmind.Http.{Result, fails, gives, trim_slashes}
use mechmind.Enrichment.Nhtsa.{
  LeanVin, LeanRecall, Json, null, string, number, printed, Object, Network, Client, Fetched, atoi,
  truncate, trim_join, fetched, says_none, or_no_text, or_none_found, or_failed,
}

module _ (R : Floats) (N : Network R.F) where
  open R use {F}

  -- Whether a number is the one of its int.
  unfoldable pub is_whole : F → Bool
  is_whole t = let i = R.of_int (R.trunc t) in not (R.lt t i) && not (R.lt i t)

  unfoldable pub str : Option (Json F) → Text
  unfolding trim_space is_whole show_int
  str none = []
  str (some null) = []
  str (some (string t)) = trim_space t
  str (some (number x)) = if is_whole x then show_int (R.trunc x) else trim_space (N.print_float x)
  str (some (printed t)) = trim_space t

  unfoldable pub field : Object F → Text → Text
  unfolding str get_key
  field m k = str (get_key k m)

  -- The first of the keys whose value is not empty.
  unfoldable pub first_str : Object F → List Text → Text
  unfolding field text_eq
  first_str m [] = []
  first_str m (k ∷ ks) =
      let rest = first_str m ks in if text_eq (field m k) [] then rest else field m k

  unfoldable pub get_bytes : Text → N.World → Fetched × N.World
  unfolding fetched
  get_bytes url w = let (sent, w1) = N.send url w in (fetched sent, w1)

  unfoldable pub lean_vin : Object F → LeanVin
  unfolding field atoi trim_join
  lean_vin r = record {
    make = field r (codes "Make");
    model = field r (codes "Model");
    year = atoi (field r (codes "ModelYear"));
    body_class = field r (codes "BodyClass");
    fuel_type = field r (codes "FuelTypePrimary");
    displacement_l = field r (codes "DisplacementL");
    cylinders = field r (codes "EngineCylinders");
    drive_type = field r (codes "DriveType");
    engine_note = trim_join (
        field r (codes "EngineConfiguration")
        ∷ field r (codes "EngineModel")
        ∷ field r (codes "ValveTrainDesign")
        ∷ []);
    error_code = field r (codes "ErrorCode");
    error_text = field r (codes "ErrorText");
  }

  unfoldable pub decoded : Result (List (Object F)) → Result LeanVin
  unfolding lean_vin
  decoded (fails e) = fails e
  decoded (gives []) = fails (codes "vpic returned no results")
  decoded (gives (r ∷ rs)) = gives (lean_vin r)

  -- `getJSON`: the error of the exchange, or what the body holds.
  unfoldable pub get_json : {A : Type 0} → (Text → Result A) → Fetched → Result A
  get_json read f = or_failed f.error (read (or_no_text f.body))

  unfoldable pub decode_vin : Client → Text → N.World → Result LeanVin × N.World
  unfolding get_bytes get_json decoded trim_slashes to_upper trim_space
  decode_vin c vin w =
      let v = to_upper (trim_space vin) in
      let url =
        trim_slashes c.vpic_base
        ++ codes "/vehicles/DecodeVinValues/"
        ++ N.path_escape v
        ++ codes "?format=json" in
      let (f, w1) = get_bytes url w in (decoded (get_json N.read_results f), w1)

  unfoldable pub lean_recall : Object F → Text → LeanRecall
  unfolding first_str truncate
  lean_recall r campaign = record {
    campaign_number = campaign;
    component = truncate (first_str r (codes "Component" ∷ codes "component" ∷ [])) 120;
    summary = truncate (first_str r (codes "Summary" ∷ codes "summary" ∷ [])) 280;
    consequence =
        truncate (first_str r (codes "Conequence" ∷ codes "Consequence" ∷ codes "consequence" ∷ []))
          200;
    remedy = truncate (first_str r (codes "Remedy" ∷ codes "remedy" ∷ [])) 200;
    report_date = first_str r (codes "ReportReceivedDate" ∷ codes "reportReceivedDate" ∷ []);
  }

  unfoldable pub campaign_of : Object F → Text
  unfolding first_str
  campaign_of r =
      first_str r
        (codes "NHTSACampaignNumber" ∷ codes "nhtsaCampaignNumber" ∷ codes "CampaignNumber" ∷ [])

  -- An object without a campaign is left out.
  unfoldable pub lean_recalls : List (Object F) → List LeanRecall
  unfolding campaign_of lean_recall text_eq
  lean_recalls [] = []
  lean_recalls (r ∷ rs) =
      let rest = lean_recalls rs in
      if text_eq (campaign_of r) [] then rest else lean_recall r (campaign_of r) ∷ rest

  -- The objects under "results", and without any those under "Results".
  unfoldable pub recalls_in : Text → Result (List (Object F)) → Result (List LeanRecall)
  unfolding lean_recalls
  recalls_in body (fails e) = fails e
  recalls_in body (gives []) = gives (lean_recalls (or_none_found (N.read_results body)))
  recalls_in body (gives (r ∷ rs)) = gives (lean_recalls (r ∷ rs))

  unfoldable pub recalls_from : Fetched → Result (List LeanRecall)
  unfolding recalls_in says_none
  recalls_from f =
      if is_some f.error && says_none f
      then gives []
      else or_failed f.error (recalls_in (or_no_text f.body) (N.read_recalls (or_no_text f.body)))

  unfoldable pub recalls_by_mmy :
      Client → Text → Text → ℤ → N.World → Result (List LeanRecall) × N.World
  unfolding get_bytes recalls_from trim_slashes show_int
  recalls_by_mmy c make model year w =
      let url =
        trim_slashes c.nhtsa_base
        ++ codes "/recalls/recallsByVehicle?"
        ++ N.encode make model (show_int year) in
      let (f, w1) = get_bytes url w in (recalls_from f, w1)
