-- ===== src/Api/Explain/Answers.antt =====
-- What an explanation holds when it is answered.
use mechmind.Explain.Narrator.{Outside}
use mechmind.Explain.Narrator.Cache.{narrate-packet}
use mechmind.Store.{holds, erred, Stored, StoreError, error_text}
use mechmind.Diagnosis.Analyze.{analyze-IsRanked, analyze}
use mechmind.Explain.Packet.Top.{build_packet-IsBelow, IsBelow}
use mechmind.Explain.Narrator.{NarrativeResult, Narrator, narrate}
use mechmind.Explain.Packet.{build_packet}
use mechmind.Text.Laws.{text_eq_iff}
use mathlib.Core.Option
use mechmind.Obd.Types.{Dtc}
use mechmind.Explain.Packet.Lean.{build_packet-IsLean, IsLean}
use mechmind.Http.{answered, refused, Answer}
use mechmind.Api.{Claims}
use mechmind.Diagnosis.Rank.{IsRanked}
use mechmind.Api.Explain.{
  vehicle_name, dtcs_or_none, latest, org_filter, is_yes, answer_explained, ExplainRequest,
  engine_input, Desk, Explanation, explain_code, with_narrative, packet_input, Explained, explained,
  Library,
}
use mechmind.Base.{
  ◌⊎◌, [], none, Bool-cases, drop, ℕ, All, ◌≡◌, refl, inl, inr, Bool, true, false, Option, some,
  List,
}
use mechmind.Base.Float.{Floats}
use mechmind.Text.{Text, text_eq}

module _ (R : Floats) (fixed : ℕ → R.F → Text) (scan_float : Text → Option R.F) where
  open R use {F}

  -- What of an answer does not hang on the narrator.
  pub record IsGrounded (req : ExplainRequest) (exp : Explanation F) (dtcs : List (Dtc F))
      (x : Explained F) : Type 0 where
    pub told : x.explanation ≡ exp
    -- The engine has seen the code that was asked for, the codes of the latest scan, and what the
    -- store knows.
    pub found :
        x.findings
        ≡ analyze R fixed scan_float (record {
          focus_code = req.code;
          dtcs = dtcs;
          observations = exp.observations;
          co_occur = exp.co_occurrence;
        })
    pub packed :
        x.packet
        ≡ build_packet R (record {
          code = req.code;
          findings = x.findings;
          article = exp.article;
          vehicle = Option.map vehicle_name exp.vehicle;
          co_occur = exp.co_occurrence;
          history = exp.history;
        })
    pub ranked : IsRanked x.findings
    pub lean : IsLean x.packet
    pub kept : All (IsBelow x.packet.findings) (drop 3 x.findings)

  explained-IsGrounded :
      (req : ExplainRequest) (exp : Explanation F) (dtcs : List (Dtc F))
      → IsGrounded req exp dtcs (explained R fixed scan_float req.code exp dtcs)
  unfolding explained packet_input engine_input
  explained-IsGrounded req exp dtcs =
      let i = engine_input R fixed scan_float req.code exp dtcs in
      let b = packet_input R fixed scan_float req.code exp (analyze R fixed scan_float i) in
      record {
        told = refl;
        found = refl;
        packed = refl;
        ranked = (analyze-IsRanked R fixed scan_float i).0;
        lean = build_packet-IsLean R b;
        kept = build_packet-IsBelow R fixed scan_float i b refl;
      }

  explained-narrative :
      (code : Text) (exp : Explanation F) (dtcs : List (Dtc F))
      → (explained R fixed scan_float code exp dtcs).narrative ≡ none
  unfolding explained
  explained-narrative code exp dtcs = refl

  module _ (L : Library F) (O : Outside F) where
    open L use {Shelf}

    -- A narrative of the packet, just where it is asked for and there is a narrator.
    pub IsNarrated : Bool → Option Narrator → Explained F → Type 0
    IsNarrated true (some n) x =
        (r : NarrativeResult F) × (x.narrative ≡ some r) × (r.packet ≡ x.packet)
    IsNarrated true none x = x.narrative ≡ none
    IsNarrated false n x = x.narrative ≡ none

    -- The codes of the latest scan: those that the store gives, none without a VIN or after an
    -- error.
    pub IsLatest : Text → Option Text → Shelf → List (Dtc F) → Type 0
    IsLatest vin filter s dtcs =
        ((vin ≡ []) × (dtcs ≡ []))
        ⊎ (((e : StoreError) × ((L.latest_dtcs vin filter s).0 ≡ erred e) × (dtcs ≡ []))
            ⊎ ((L.latest_dtcs vin filter s).0 ≡ holds dtcs))

    -- An answer to what the store has explained, whose error refuses the request.
    pub IsAnswered :
        Claims
        → ExplainRequest
        → Stored (Explanation F) × Shelf
        → Desk Shelf O.World
        → Answer (Explained F) × Desk Shelf O.World
        → Type 0
    IsAnswered c req (erred e, s) d out = out ≡ (refused 500 (error_text e), record d { shelf = s })
    IsAnswered c req (holds exp, s) d out =
        (x : Explained F) × (out.0 ≡ answered 200 x)
        × (dtcs : List (Dtc F)) × IsLatest req.vin (org_filter R fixed scan_float L O c) s dtcs
        × IsGrounded req exp dtcs x
        × IsNarrated (is_yes req.narrative) d.narrator x

    latest-IsLatest :
        (vin : Text) (filter : Option Text) (s : Shelf)
        → IsLatest vin filter s (latest R fixed scan_float L O vin filter s).0
    unfolding latest IsLatest
    latest-IsLatest vin filter s = elim (Bool-cases (text_eq vin [])) [
      | inl blank ↦ rw blank (inl ((text_eq_iff vin []).0 blank, refl))
      | inr named ↦ rw named (inr (found (L.latest_dtcs vin filter s).0 refl))
    ]
      where
        found :
            (m : Stored (List (Dtc F)))
            → (L.latest_dtcs vin filter s).0 ≡ m
            → ((e : StoreError) × ((L.latest_dtcs vin filter s).0 ≡ erred e)
                × (dtcs_or_none m ≡ []))
              ⊎ ((L.latest_dtcs vin filter s).0 ≡ holds (dtcs_or_none m))
        found (erred e) h = inl (e, h, refl)
        found (holds ds) h = inr h

    -- The narrator changes nothing but the narrative.
    regrounded :
        (req : ExplainRequest) (exp : Explanation F) (dtcs : List (Dtc F)) (x : Explained F)
        → (r : NarrativeResult F) → IsGrounded req exp dtcs x
        → IsGrounded req exp dtcs (record x { narrative = some r })
    regrounded req exp dtcs x r h = record {
      told = h.told;
      found = h.found;
      packed = h.packed;
      ranked = h.ranked;
      lean = h.lean;
      kept = h.kept;
    }

    with_narrative-IsNarrated :
        (req : ExplainRequest) (exp : Explanation F) (dtcs : List (Dtc F)) (want force : Bool)
        → (x : Explained F) (d : Desk Shelf O.World) (n : Option Narrator) → d.narrator ≡ n
        → x.narrative ≡ none
        → IsGrounded req exp dtcs x
        → IsGrounded req exp dtcs (with_narrative R fixed scan_float L O want force x d).0
          × IsNarrated want n (with_narrative R fixed scan_float L O want force x d).0
    unfolding with_narrative IsNarrated
    with_narrative-IsNarrated req exp dtcs false force x d n here nil h = (h, nil)
    with_narrative-IsNarrated req exp dtcs true force x d none here nil h = rw here (h, nil)
    with_narrative-IsNarrated req exp dtcs true force x d (some n) here nil h =
        let (r, n1, w1) = narrate O x.packet force n d.world in
        rw here
          ((regrounded req exp dtcs x r h, (r, refl, narrate-packet O x.packet force n d.world)))

    answer_explained-IsAnswered :
        (c : Claims) (req : ExplainRequest) (e : Stored (Explanation F)) (s : Shelf)
        → (d : Desk Shelf O.World)
        → IsAnswered c req
            (e, s)
            d
            (answer_explained R fixed scan_float L O c req e (record d { shelf = s }))
    unfolding answer_explained IsAnswered
    answer_explained-IsAnswered c req (erred e) s d = refl
    answer_explained-IsAnswered c req (holds exp) s d =
        let filter = org_filter R fixed scan_float L O c in
        let (dtcs, s1) = latest R fixed scan_float L O req.vin filter s in
        let (x, d1) =
          with_narrative R fixed scan_float L O (is_yes req.narrative) (is_yes req.force_narrative)
            (explained R fixed scan_float req.code exp dtcs) (record d { shelf = s1 }) in
        let (grounded, narrated) =
          with_narrative-IsNarrated req exp dtcs (is_yes req.narrative) (is_yes req.force_narrative)
            (explained R fixed scan_float req.code exp dtcs) (record d { shelf = s1 }) d.narrator
            refl (explained-narrative req.code exp dtcs) (explained-IsGrounded req exp dtcs) in
        (x, refl, dtcs, latest-IsLatest req.vin filter s, grounded, narrated)

    -- An error of the store is answered as such. Otherwise the answer carries what the store has
    -- explained, the findings of the engine on it and on the codes of the latest scan, in the order
    -- of their confidence, the packet of these findings, lean and without a finding above one that
    -- it
    -- keeps left out, and a narrative of exactly that packet just where one is asked for and there
    -- is
    -- a narrator.
    pub explain_code-IsAnswered :
        (c : Claims) (req : ExplainRequest) (d : Desk Shelf O.World)
        → IsAnswered c req
            (L.explain_code req.code req.vin (org_filter R fixed scan_float L O c) d.shelf)
            d
            (explain_code R fixed scan_float L O c req d)
    unfolding explain_code
    explain_code-IsAnswered c req d =
        let (exp, s1) =
          L.explain_code req.code req.vin (org_filter R fixed scan_float L O c) d.shelf in
        answer_explained-IsAnswered c req exp s1 d
