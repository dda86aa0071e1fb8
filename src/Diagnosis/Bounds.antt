-- ===== src/Diagnosis/Bounds.antt =====
-- The confidences of the engine's findings (internal/diagnosis/engine.go).
use mechmind.Obd.Codes.{find_text}
use mechmind.Obd.Dtcs.{Seen}
use mechmind.Base.{
  Option-cases, All-append, All, ℕ, ◌≤◌, inl, inr, Option, none, some, List, [], arith,
}
use mechmind.Base.Float.{Floats}
use mechmind.Text.{to_upper, codes, Text}
use mechmind.Obd.Types.{FreezeFrame, LiveSnapshot, Observations, LinkMetrics}
use mechmind.Diagnosis.{code_map, CoOccurStat, Finding}
use mechmind.Diagnosis.Rules.{
  misfire_single, trim_idle_vs_cruise, link_fragility, misfire_fingerprint, misfire_lean,
  module_voltage, trims,
}
use mechmind.Diagnosis.Samples.{
  as_float, frame_of, on_frame, on_live, with_both, freeze_frame_mismatch, maf_plausibility,
  o2_catalyst_proxy, speeds_differ, catalyst, airflow,
}
use mechmind.Diagnosis.Analyze.{link_of, live_of, co_occurrence_findings, Input, raised}

-- No finding is below 55 or above 80.
abbrev pub IsModest : Finding → Type 0
IsModest f = (55 ≤ f.confidence) × (f.confidence ≤ 80)

abbrev AreModest : List Finding → Type 0
AreModest fs = All IsModest fs

module _ (R : Floats) (fixed : ℕ → R.F → Text) (scan_float : Text → Option R.F) where
  open R use {F}

  trims-AreModest :
      (focus : Text) (m : Seen F) (live : LiveSnapshot F) (st ft : F)
      → AreModest (trims R fixed scan_float focus m live st ft)
  unfolding trims
  trims-AreModest focus m live st ft = ground arith

  airflow-AreModest :
      (focus : Text) (m : Seen F) (load : Option F) (maf rpm : F)
      → AreModest (airflow R fixed scan_float focus m load maf rpm)
  unfolding airflow
  airflow-AreModest focus m load maf rpm = ground arith

  with_both-AreModest :
      (a b : Option F) (f : F → F → List Finding)
      → ((x y : F) → AreModest (f x y))
      → AreModest (with_both R fixed scan_float a b f)
  unfolding with_both
  with_both-AreModest (some x) (some y) f h = h x y
  with_both-AreModest none b f h = tt
  with_both-AreModest (some x) none f h = tt

  maf-AreModest :
      (focus : Text) (m : Seen F) (live : Option (LiveSnapshot F))
      → AreModest (maf_plausibility R fixed scan_float focus m live)
  unfolding maf_plausibility
  maf-AreModest focus m none = tt
  maf-AreModest focus m (some live) =
      with_both-AreModest live.maf_gs live.rpm _ (airflow-AreModest focus m live.load_pct)

  catalyst-AreModest :
      (focus : Text) (m : Seen F) (s1 s2 : F)
      → AreModest (catalyst R fixed scan_float focus m s1 s2)
  unfolding catalyst
  catalyst-AreModest focus m s1 s2 = ground arith

  o2-AreModest :
      (focus : Text) (m : Seen F) (live : Option (LiveSnapshot F))
      → AreModest (o2_catalyst_proxy R fixed scan_float focus m live)
  unfolding o2_catalyst_proxy
  o2-AreModest focus m none = tt
  o2-AreModest focus m (some live) =
      with_both-AreModest live.o2_b1s1_v live.o2_b1s2_v _ (catalyst-AreModest focus m)

  speeds-AreModest :
      (focus : Text) (a b : F) → AreModest (speeds_differ R fixed scan_float focus a b)
  unfolding speeds_differ
  speeds-AreModest focus a b = ground arith

  on_frame-AreModest :
      (focus : Text) (rpm : Option F) (ff : Option (FreezeFrame F))
      → AreModest (on_frame R fixed scan_float focus rpm ff)
  unfolding on_frame
  on_frame-AreModest focus rpm none = tt
  on_frame-AreModest focus rpm (some ff) =
      with_both-AreModest (as_float R fixed scan_float (find_text (codes "rpm") ff)) rpm _
        (speeds-AreModest focus)

  on_live-AreModest :
      (focus : Text) (m : Seen F) (obs : Observations F) (live : Option (LiveSnapshot F))
      → AreModest (on_live R fixed scan_float focus m obs live)
  unfolding on_live
  on_live-AreModest focus m obs none = tt
  on_live-AreModest focus m obs (some live) =
      on_frame-AreModest focus live.rpm (frame_of R fixed scan_float focus (find_text focus m) obs)

  freeze-AreModest :
      (focus : Text) (m : Seen F) (obs : Option (Observations F))
      → AreModest (freeze_frame_mismatch R fixed scan_float focus m obs)
  unfolding freeze_frame_mismatch
  freeze-AreModest focus m none = tt
  freeze-AreModest focus m (some obs) = on_live-AreModest focus m obs obs.live

  trim-AreModest :
      (focus : Text) (m : Seen F) (live : Option (LiveSnapshot F))
      → AreModest (trim_idle_vs_cruise R fixed scan_float focus m live)
  unfolding trim_idle_vs_cruise
  trim-AreModest focus m none = tt
  trim-AreModest focus m (some live) = elim (Option-cases live.stft_b1_pct) [
    | inl q ↦ rw q tt
    | inr (st, q) ↦ elim (Option-cases live.ltft_b1_pct) [
      | inl r ↦ rw (q, r) tt
      | inr (ft, r) ↦ rw (q, r) (trims-AreModest focus m live st ft)
    ]
  ]

  misfire_lean-AreModest :
      (m : Seen F) (live : Option (LiveSnapshot F))
      → AreModest (misfire_lean R fixed scan_float m live)
  unfolding misfire_lean
  misfire_lean-AreModest m none = tt
  misfire_lean-AreModest m (some live) = elim (Option-cases live.stft_b1_pct) [
    | inl q ↦ rw q tt
    | inr (st, q) ↦ rw q (ground arith)
  ]

  misfire-AreModest :
      (focus : Text) (m : Seen F) (live : Option (LiveSnapshot F))
      → AreModest (misfire_fingerprint R fixed scan_float focus m live)
  unfolding misfire_fingerprint misfire_single
  misfire-AreModest focus m live = ground (arith, misfire_lean-AreModest m live)

  link-AreModest :
      (link : Option (LinkMetrics F)) → AreModest (link_fragility R fixed scan_float link)
  unfolding link_fragility
  link-AreModest none = tt
  link-AreModest (some link) = ground arith

  voltage-AreModest :
      (live : Option (LiveSnapshot F)) → AreModest (module_voltage R fixed scan_float live)
  unfolding module_voltage
  voltage-AreModest none = tt
  voltage-AreModest (some live) = elim (Option-cases live.module_volts) [
    | inl q ↦ rw q tt
    | inr (v, q) ↦ rw q (ground arith)
  ]

  co_occurrence-AreModest :
      (focus : Text) (stats : List (CoOccurStat F))
      → AreModest (co_occurrence_findings R fixed scan_float focus stats)
  unfolding co_occurrence_findings
  co_occurrence-AreModest focus stats = ground arith

  -- Whatever the scan, every finding that the rules raise has a confidence from 55 to 80.
  pub raised-IsModest : (i : Input F) → All IsModest (raised R fixed scan_float i)
  unfolding raised
  raised-IsModest i =
      let live = live_of R fixed scan_float i.observations in
      let link = link_of R fixed scan_float i.observations in
      let m = code_map i.dtcs [] in
      let focus = to_upper i.focus_code in
      All-append IsModest _ (co_occurrence_findings R fixed scan_float focus i.co_occur)
        (All-append IsModest _ (module_voltage R fixed scan_float live)
          (All-append IsModest _ (link_fragility R fixed scan_float link)
            (All-append IsModest _ (misfire_fingerprint R fixed scan_float focus m live)
              (All-append IsModest _
                (freeze_frame_mismatch R fixed scan_float focus m i.observations)
                (All-append IsModest _ (o2_catalyst_proxy R fixed scan_float focus m live)
                  (All-append IsModest (trim_idle_vs_cruise R fixed scan_float focus m live)
                    (maf_plausibility R fixed scan_float focus m live) (trim-AreModest focus m live)
                    (maf-AreModest focus m live))
                  (o2-AreModest focus m live))
                (freeze-AreModest focus m i.observations))
              (misfire-AreModest focus m live))
            (link-AreModest link))
          (voltage-AreModest live))
        (co_occurrence-AreModest focus i.co_occur)
