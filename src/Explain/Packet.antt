-- ===== src/Explain/Packet.antt =====
-- The context for a language model (internal/explain/packet.go). Only the fields that the packet
-- reads of the store's records are kept; a date is its text of the form 2006-01-02.
pub mod Lean
pub mod Top
use mechmind.Base.Int.{negsuc, pos, ℤ}
use mechmind.Base.{
  is_some, take, ℕ, suc, ◌+◌, ◌-◌, ◌/◌, Bool, true, false, not, ◌&&◌, Option, none, some, List, [],
  ◌∷◌, ◌++◌, map, ltb, leb, ◌==◌, if◌then◌else◌, length,
}
use mechmind.Base.Float.{Floats}
use mechmind.Text.{show_int, join, trim_space, codes, has_prefix, text_eq, fields, to_upper, Text}
use mechmind.Diagnosis.{CoOccurStat, Finding}

pub record PacketFinding : Type 0 where
  pub id : Text
  pub title : Text
  pub confidence : ℕ
  pub evidence : List Text

pub record PacketKb : Type 0 where
  pub title : Text
  pub summary : Text
  pub causes : List Text
  pub tests : List Text
  pub parts : List Text

pub record PacketCoOccur (F : Type 0) : Type 0 where
  pub code : Text
  pub rate : F

pub record Packet (F : Type 0) : Type 0 where
  pub code : Text
  pub vehicle : Text
  pub findings : List PacketFinding
  pub kb : Option PacketKb
  pub co_occur : List (PacketCoOccur F)
  pub history : List Text
  pub ask : Text

-- `store.KnowledgeArticle`.
pub record KnowledgeArticle : Type 0 where
  pub code : Text
  pub vehicle_scope : Text
  pub title : Text
  pub summary : Text
  pub likely_causes : List Text
  pub tests : List Text
  pub parts : List Text

-- What the packet reads of `store.VehicleEnrichment`.
pub record VehicleName : Type 0 where
  pub make : Text
  pub model : Text
  pub year : ℤ

-- What the packet reads of `store.HistoryHit`.
pub record HistoryHit : Type 0 where
  pub started_at : Text
  pub status : Text

pub record BuildInput (F : Type 0) : Type 0 where
  pub code : Text
  pub findings : List Finding
  pub article : Option KnowledgeArticle
  pub vehicle : Option VehicleName
  pub co_occur : List (CoOccurStat F)
  pub history : List HistoryHit

-- `strings.LastIndex s sub`, for a non-empty `sub`; -1 is `none`.
unfoldable pub last_index : Text → Text → Option ℕ
unfolding has_prefix
last_index [] sub = none
last_index (c ∷ s) sub = later (last_index s sub)
  where
    later : Option ℕ → Option ℕ
    later (some i) = some (suc i)
    later none = if has_prefix (c ∷ s) sub then some 0 else none

-- The first `n` bytes, or the first sentences of them if they make up more than half.
unfoldable pub clip_at : Option ℕ → Text → ℕ → Text
clip_at none s n = take (n - 1) s ++ (0xE2 ∷ 0x80 ∷ 0xA6 ∷ [])
clip_at (some cut) s n =
    if ltb (n / 2) cut then take (cut + 1) s else take (n - 1) s ++ (0xE2 ∷ 0x80 ∷ 0xA6 ∷ [])

unfoldable pub clip_sentence : Text → ℕ → Text
unfolding fields join last_index clip_at
clip_sentence s n =
    let s = join (fields s) (codes " ") in
    if leb (length s) n then s else clip_at (last_index (take n s) (codes ". ")) s n

unfoldable pub packet_finding : Finding → PacketFinding
packet_finding f = record {
  id = f.id;
  title = f.title;
  confidence = f.confidence;
  evidence = take 2 f.evidence;
}

unfoldable pub packet_kb : KnowledgeArticle → PacketKb
unfolding clip_sentence
packet_kb a = record {
  title = a.title;
  summary = clip_sentence a.summary 280;
  causes = take 3 a.likely_causes;
  tests = take 3 a.tests;
  parts = take 3 a.parts;
}

unfoldable pub kb_of : Option KnowledgeArticle → Option PacketKb
unfolding packet_kb
kb_of none = none
kb_of (some a) = some (packet_kb a)

abbrev is_positive_year : ℤ → Bool
is_positive_year (pos n) = ltb 0 n
is_positive_year (negsuc n) = false

vehicle_line : Option VehicleName → Text
unfolding text_eq join show_int
vehicle_line none = []
vehicle_line (some v) =
    join
      ((if text_eq v.make [] then [] else v.make ∷ [])
        ++ (if text_eq v.model [] then [] else v.model ∷ [])
        ++ (if is_positive_year v.year then show_int v.year ∷ [] else []))
      (codes " ")

history_line : HistoryHit → Text
history_line h = h.started_at ++ codes " " ++ h.status

module _ (R : Floats) where
  open R use {F, dec, of_int, add, mul, div, lt, trunc}

  -- To two decimals.
  unfoldable pub round2 : F → F
  round2 v = div (of_int (trunc (add (mul v (dec 100 0)) (dec 5 1)))) (dec 100 0)

  -- The loop over the other codes: those of a rate of 0.25 and more, until there are two; `n`
  -- counts
  -- those that were kept.
  unfoldable pub strong_codes : ℕ → List (CoOccurStat F) → List (PacketCoOccur F)
  unfolding round2
  strong_codes n [] = []
  strong_codes n (c ∷ cs) =
      let skip = strong_codes n cs in
      let rest = strong_codes (suc n) cs in
      let kept : PacketCoOccur F = record { code = c.code; rate = round2 c.rate } in
      if lt c.rate (dec 25 2) then skip else if leb 2 (suc n) then kept ∷ [] else kept ∷ rest

  unfoldable pub build_packet : BuildInput F → Packet F
  unfolding to_upper trim_space vehicle_line packet_finding kb_of strong_codes history_line
  build_packet i = record {
    code = to_upper (trim_space i.code);
    vehicle = vehicle_line i.vehicle;
    findings = map packet_finding (take 3 i.findings);
    kb = kb_of i.article;
    co_occur = strong_codes 0 i.co_occur;
    history = map history_line (take 2 i.history);
    ask =
        codes
          "Write a short bay triage (5–8 sentences) for a technician. Use only CONTEXT. Cite finding ids. Do not invent DTCs, parts, or measurements.";
  }

-- The one finding, if there is just one, has at least this confidence.
abbrev one_at_least : ℕ → List PacketFinding → Bool
one_at_least n (f ∷ []) = leb n f.confidence
one_at_least n fs = false

module _ {F : Type 0} where
  -- Whether prose is worth a call, and why.
  unfoldable pub worth_narrating : Packet F → Bool → Bool × Text
  worth_narrating p force =
      if force
      then (true, codes "forced")
      else if length p.findings == 0 && not (is_some p.kb)
      then (false, codes "no_findings_or_kb")
      else if one_at_least 85 p.findings && is_some p.kb
      then (false, codes "structured_sufficient")
      else if length p.findings == 0 && is_some p.kb
      then (false, codes "kb_only")
      else (true, codes "ok")
