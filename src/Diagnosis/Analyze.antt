-- ===== src/Diagnosis/Analyze.antt =====
-- The engine as a whole (internal/diagnosis/engine.go: Analyze, coOccurrenceFindings).
use mechmind.Base.{
  take, keep, ℕ, ◌≡◌, Bool, not, ◌||◌, Option, none, some, List, [], ◌∷◌, ◌++◌, map, ltb, ◌==◌,
  if◌then◌else◌, length,
}
use mechmind.Base.Float.{Floats}
use mechmind.Text.{codes, text_eq, to_upper, show_nat, join, Text}
use mechmind.Obd.Types.{Dtc, LiveSnapshot, Observations, LinkMetrics}
use mechmind.Diagnosis.{info, Finding, CoOccurStat, rank, code_map}
use mechmind.Diagnosis.Rank.{IsRanked, count, rank-IsRanked}
use mechmind.Diagnosis.Rules.{
  trim_idle_vs_cruise, misfire_fingerprint, link_fragility, module_voltage,
}
use mechmind.Diagnosis.Samples.{maf_plausibility, o2_catalyst_proxy, freeze_frame_mismatch}

-- What the engine is given.
pub record Input (F : Type 0) : Type 0 where
  pub focus_code : Text
  pub dtcs : List (Dtc F)
  pub observations : Option (Observations F)
  pub co_occur : List (CoOccurStat F)

module _ (R : Floats) (fixed : ℕ → R.F → Text) (scan_float : Text → Option R.F) where
  open R use {F, dec, mul, lt}

  -- The statistics that count, among the first three.
  unfoldable pub strong_stats : List (CoOccurStat F) → List (CoOccurStat F)
  strong_stats stats = keep (λ s. not (lt s.rate (dec 25 2) || ltb s.with_count 2)) (take 3 stats)

  stat_text : Text → CoOccurStat F → Text
  unfolding show_nat
  stat_text focus s =
      s.code
      ++ codes " appeared in "
      ++ fixed 0 (mul s.rate (dec 100 0))
      ++ codes "% of scans that also had "
      ++ focus
      ++ codes " (n="
      ++ show_nat s.with_count
      ++ codes ")"

  unfoldable pub co_occurrence_findings : Text → List (CoOccurStat F) → List Finding
  unfolding strong_stats stat_text join text_eq
  co_occurrence_findings focus stats =
      let top = strong_stats stats in
      let names = map (λ s. s.code) top in
      if text_eq focus [] || length top == 0
      then []
      else record {
        id = codes "fleet.cooccurrence";
        title = codes "Network co-occurrence patterns";
        summary =
            codes "Across your shop network, this code often appears with: "
            ++ join names (codes ", ")
            ++ codes ". Use as prior — not proof.";
        confidence = 58;
        evidence = map (stat_text focus) top;
        related_dtcs = focus ∷ names;
        severity = info;
      }
        ∷ []

  unfoldable pub live_of : Option (Observations F) → Option (LiveSnapshot F)
  live_of none = none
  live_of (some o) = o.live

  unfoldable pub link_of : Option (Observations F) → Option (LinkMetrics F)
  link_of none = none
  link_of (some o) = o.link

  -- The findings of the rules, in the order of the rules.
  unfoldable pub raised : Input F → List Finding
  unfolding live_of link_of code_map trim_idle_vs_cruise maf_plausibility o2_catalyst_proxy
      freeze_frame_mismatch misfire_fingerprint link_fragility module_voltage co_occurrence_findings
      to_upper
  raised i =
      let live = live_of i.observations in
      let m = code_map i.dtcs [] in
      let focus = to_upper i.focus_code in
      trim_idle_vs_cruise R fixed scan_float focus m live
      ++ maf_plausibility R fixed scan_float focus m live
      ++ o2_catalyst_proxy R fixed scan_float focus m live
      ++ freeze_frame_mismatch R fixed scan_float focus m i.observations
      ++ misfire_fingerprint R fixed scan_float focus m live
      ++ link_fragility R fixed scan_float (link_of i.observations)
      ++ module_voltage R fixed scan_float live
      ++ co_occurrence_findings focus i.co_occur

  unfoldable pub analyze : Input F → List Finding
  unfolding raised rank
  analyze i = rank (raised i)

  -- `Analyze` returns just the findings that the rules raised, the highest confidence first.
  pub analyze-IsRanked :
      (i : Input F)
      → IsRanked (analyze i) × ((p : Finding → Bool) → count p (analyze i) ≡ count p (raised i))
  unfolding analyze
  analyze-IsRanked i = rank-IsRanked (raised i)
