-- ===== src/Diagnosis/Samples.antt =====
-- The rules that compare samples (internal/diagnosis/engine.go: mafPlausibility, o2CatalystProxy,
-- freezeFrameMismatch, asFloat).
use mechmind.Obd.Dtcs.{Seen}
use mechmind.Base.{ℕ, not, ◌&&◌, ◌||◌, Option, none, some, List, [], ◌∷◌, ◌++◌, if◌then◌else◌}
use mechmind.Base.Float.{Floats}
use mechmind.Text.{text_eq, codes, Text}
use mechmind.Obd.Types.{
  other, text, int64, int, float32, float64, Dtc, Value, LiveSnapshot, Observations, FreezeFrame,
}
use mechmind.Obd.Codes.{find_text}
use mechmind.Diagnosis.{lean_codes, watch, likely, Finding, has_any, related}

module _ (R : Floats) (fixed : ℕ → R.F → Text) (scan_float : Text → Option R.F) where
  open R use {F, dec, of_int, sub, mul, div, abs, max, lt}

  -- The expected idle airflow, by the load.
  unfoldable pub expected_idle : Option F → F
  expected_idle none = dec 35 1
  expected_idle (some load) = if lt (dec 40 0) load then dec 8 0 else dec 35 1

  unfoldable pub airflow_ratio : F → F → Option F → F
  unfolding expected_idle
  airflow_ratio rpm maf load =
      div maf (max (mul (expected_idle load) (div rpm (dec 800 0))) (dec 5 1))

  -- The rule on airflow, for an airflow and an engine speed that were sampled.
  unfoldable pub airflow : Text → Seen F → Option F → F → F → List Finding
  unfolding airflow_ratio has_any related text_eq
  airflow focus m load maf rpm =
      let ratio = airflow_ratio rpm maf load in
      let lean = has_any m lean_codes || text_eq focus (codes "P0171") in
      let measured =
        codes "MAF="
        ++ fixed 2 maf
        ++ codes " g/s at "
        ++ fixed 0 rpm
        ++ codes " rpm (ratio≈"
        ++ fixed 2 ratio in
      if lt rpm (dec 600 0)
      then []
      else if lean && lt ratio (dec 55 2)
      then record {
        id = codes "maf.low_vs_rpm";
        title = codes "MAF airflow low versus RPM expectation";
        summary =
            codes
              "Reported mass air flow is low for engine speed. Contaminated/skewed MAF or intake metering issue is plausible.";
        confidence = 68;
        evidence = (measured ++ codes " vs simple model)") ∷ [];
        related_dtcs = related m lean_codes;
        severity = watch;
      }
        ∷ []
      else if lean && lt (dec 18 1) ratio
      then record {
        id = codes "maf.high_vs_rpm";
        title = codes "MAF airflow high versus RPM expectation";
        summary =
            codes
              "MAF reports more air than expected. Possible MAF over-reporting or unmetered air compensated oddly — verify with speed-density cross-check.";
        confidence = 60;
        evidence = (measured ++ codes ")") ∷ [];
        related_dtcs = related m lean_codes;
        severity = watch;
      }
        ∷ []
      else []

  -- A rule on two samples: without one of them it finds nothing.
  unfoldable pub with_both : Option F → Option F → (F → F → List Finding) → List Finding
  with_both (some a) (some b) f = f a b
  with_both none b f = []
  with_both (some a) none f = []

  unfoldable pub maf_plausibility : Text → Seen F → Option (LiveSnapshot F) → List Finding
  unfolding airflow with_both
  maf_plausibility focus m none = []
  maf_plausibility focus m (some live) =
      with_both live.maf_gs live.rpm (airflow focus m live.load_pct)

  -- The rule on the oxygen sensors, for two voltages that were sampled.
  unfoldable pub catalyst : Text → Seen F → F → F → List Finding
  unfolding has_any related text_eq
  catalyst focus m s1 s2 =
      let delta = abs (sub s1 s2) in
      if not (text_eq focus (codes "P0420")) && not (has_any m (codes "P0420" ∷ []))
      then []
      else if lt delta (dec 5 2) && lt (dec 4 1) s2 && lt s2 (dec 7 1)
      then record {
        id = codes "o2.rear_tracks_front";
        title = codes "Rear O2 mirrors front (catalyst efficiency soft signal)";
        summary =
            codes
              "With P0420, similar front/rear O2 levels on a snapshot can support inefficient cat storage — still confirm with waveform activity over time.";
        confidence = 55;
        evidence =
            (codes "B1S1="
              ++ fixed 3 s1
              ++ codes "V B1S2="
              ++ fixed 3 s2
              ++ codes "V (|Δ|="
              ++ fixed 3 delta
              ++ codes ")")
            ∷ [];
        related_dtcs = related m (codes "P0420" ∷ []);
        severity = watch;
      }
        ∷ []
      else []

  unfoldable pub o2_catalyst_proxy : Text → Seen F → Option (LiveSnapshot F) → List Finding
  unfolding catalyst with_both
  o2_catalyst_proxy focus m none = []
  o2_catalyst_proxy focus m (some live) = with_both live.o2_b1s1_v live.o2_b1s2_v (catalyst focus m)

  -- A float32 becomes the same number.
  unfoldable pub as_float : Option (Value F) → Option F
  as_float none = none
  as_float (some (float64 x)) = some x
  as_float (some (float32 x)) = some x
  as_float (some (int n)) = some (of_int n)
  as_float (some (int64 n)) = some (of_int n)
  as_float (some (text t)) = scan_float t
  as_float (some other) = none

  -- The frame in the map of frames, if there is a map.
  frame_in : Text → Option (List (Text × FreezeFrame F)) → Option (FreezeFrame F)
  unfolding find_text
  frame_in focus none = none
  frame_in focus (some frames) = find_text focus frames

  -- The freeze frame of the code's own entry, or else that of the observations.
  unfoldable pub frame_of : Text → Option (Dtc F) → Observations F → Option (FreezeFrame F)
  unfolding frame_in
  frame_of focus none obs = frame_in focus obs.freeze_frames
  frame_of focus (some d) obs = own d.freeze_frame
    where
      own : Option (FreezeFrame F) → Option (FreezeFrame F)
      own none = frame_in focus obs.freeze_frames
      own (some ff) = some ff

  -- The rule on engine speeds, for two that are known.
  unfoldable pub speeds_differ : Text → F → F → List Finding
  speeds_differ focus ff_rpm live_rpm =
      if lt (dec 800 0) (abs (sub ff_rpm live_rpm))
      then record {
        id = codes "ff.condition_mismatch";
        title = codes "Freeze-frame condition differs from live sample";
        summary =
            codes
              "The fault set under different speed/load than now. Treat as intermittent or condition-specific — reproduce the freeze-frame regime before parts replacement.";
        confidence = 74;
        evidence =
            (codes "freeze-frame RPM="
              ++ fixed 0 ff_rpm
              ++ codes " vs live RPM="
              ++ fixed 0 live_rpm)
            ∷ [];
        related_dtcs = focus ∷ [];
        severity = likely;
      }
        ∷ []
      else []

  unfoldable pub on_frame : Text → Option F → Option (FreezeFrame F) → List Finding
  unfolding speeds_differ as_float with_both find_text
  on_frame focus live_rpm none = []
  on_frame focus live_rpm (some ff) =
      with_both (as_float (find_text (codes "rpm") ff)) live_rpm (speeds_differ focus)

  unfoldable pub on_live : Text → Seen F → Observations F → Option (LiveSnapshot F) → List Finding
  unfolding on_frame frame_of find_text
  on_live focus m obs none = []
  on_live focus m obs (some live) = on_frame focus live.rpm (frame_of focus (find_text focus m) obs)

  unfoldable pub freeze_frame_mismatch : Text → Seen F → Option (Observations F) → List Finding
  unfolding on_live
  freeze_frame_mismatch focus m none = []
  freeze_frame_mismatch focus m (some obs) = on_live focus m obs obs.live
