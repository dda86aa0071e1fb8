-- ===== src/Diagnosis/Rules.antt =====
-- The rules of the diagnosis engine (internal/diagnosis/engine.go). `fixed d x` is fmt's %.df of x,
-- and `scan_float` is Sscanf with %f.
use mechmind.Obd.Dtcs.{Seen}
use mechmind.Base.{
  keep, ℕ, not, ◌&&◌, ◌||◌, Option, none, some, List, [], ◌∷◌, ◌++◌, ◌==◌, if◌then◌else◌, length,
}
use mechmind.Base.Float.{Floats}
use mechmind.Text.{text_eq, codes, join, show_nat, Text}
use mechmind.Obd.Types.{LiveSnapshot, LinkMetrics}
use mechmind.Diagnosis.{lean_codes, watch, likely, Finding, has_any, related}

-- The cylinder codes that `misfireFingerprint` looks for.
abbrev pub cylinder_codes : List Text
cylinder_codes =
    codes "P0301"
    ∷ codes "P0302"
    ∷ codes "P0303"
    ∷ codes "P0304"
    ∷ codes "P0305"
    ∷ codes "P0306"
    ∷ []

module _ (R : Floats) (fixed : ℕ → R.F → Text) (scan_float : Text → Option R.F) where
  open R use {F, dec, of_int, sub, mul, div, abs, max, lt}

  unfoldable pub or_zero : Option F → F
  or_zero none = dec 0 0
  or_zero (some x) = x

  unfoldable pub trim_text : F → F → Text
  trim_text st ft = codes "STFT B1=" ++ fixed 1 st ++ codes "% LTFT B1=" ++ fixed 1 ft ++ codes "%"

  -- The rule on fuel trims, for trims that were sampled.
  unfoldable pub trims : Text → Seen F → LiveSnapshot F → F → F → List Finding
  unfolding or_zero trim_text has_any related text_eq
  trims focus m live st ft =
      let rpm = or_zero live.rpm in
      let idle = lt (dec 0 0) rpm && lt rpm (dec 1100 0) && lt (or_zero live.speed_kmh) (dec 3 0) in
      let lean =
        has_any m lean_codes || text_eq focus (codes "P0171") || text_eq focus (codes "P0174") in
      let at_rpm = trim_text st ft ++ codes " at ~" ++ fixed 0 rpm ++ codes " rpm" in
      (if lean && idle && lt (dec 12 0) st && lt (dec 10 0) ft
        then record {
          id = codes "trim.idle_lean_unmetered_air";
          title = codes "Idle-lean pattern suggests unmetered air";
          summary =
              codes
                "Short and long-term trims are strongly positive at idle. Prefer smoke-test / PCV / intake boots before replacing O2 sensors.";
          confidence = 78;
          evidence = at_rpm ∷ codes "Idle / near-zero speed sample" ∷ [];
          related_dtcs = related m lean_codes;
          severity = likely;
        }
          ∷ []
        else [])
      ++ (if lean && not idle && lt (dec 1800 0) rpm && lt (dec 10 0) st && lt (dec 10 0) ft
          then record {
            id = codes "trim.cruise_lean_fuel_or_maf";
            title = codes "Cruise-lean pattern suggests fuel delivery or MAF skew";
            summary =
                codes
                  "Positive trims persist off-idle. Prioritize MAF rationality and fuel pressure over vacuum leaks alone.";
            confidence = 72;
            evidence = at_rpm ∷ [];
            related_dtcs = related m lean_codes;
            severity = likely;
          }
            ∷ []
          else [])
      ++ (if (text_eq focus (codes "P0172") || has_any m (codes "P0172" ∷ []))
            && lt st (R.neg (dec 12 0))
            && lt ft (R.neg (dec 8 0))
          then record {
            id = codes "trim.rich_bias";
            title = codes "Rich fuel-trim bias";
            summary =
                codes
                  "Strongly negative trims. Check fuel pressure regulator, leaking injectors, or contaminated MAF before chasing O2.";
            confidence = 70;
            evidence = trim_text st ft ∷ [];
            related_dtcs = related m (codes "P0172" ∷ []);
            severity = likely;
          }
            ∷ []
          else [])

  unfoldable pub trim_idle_vs_cruise : Text → Seen F → Option (LiveSnapshot F) → List Finding
  unfolding trims
  trim_idle_vs_cruise focus m none = []
  trim_idle_vs_cruise focus m (some live) =
      on_two live.stft_b1_pct live.ltft_b1_pct (trims focus m live)
    where
      on_two : Option F → Option F → (F → F → List Finding) → List Finding
      on_two (some a) (some b) f = f a b
      on_two none b f = []
      on_two (some a) none f = []

  unfoldable pub misfire_single : List Text → List Finding
  unfolding join
  misfire_single cyl =
      record {
        id = codes "misfire.single_cylinder";
        title = codes "Single-cylinder misfire fingerprint";
        summary =
            codes
              "Random misfire accompanies one cylinder-specific code. Swap coil/plug to that cylinder before condemning fuel or ECM.";
        confidence = 80;
        evidence = (codes "Co-present cylinder DTC: " ++ join cyl (codes ", ")) ∷ [];
        related_dtcs = codes "P0300" ∷ cyl;
        severity = likely;
      }
      ∷ []

  -- The finding for lean trims, if the short-term trim was sampled.
  unfoldable pub misfire_lean : Seen F → Option (LiveSnapshot F) → List Finding
  unfolding related
  misfire_lean m none = []
  misfire_lean m (some live) = lean live.stft_b1_pct
    where
      lean : Option F → List Finding
      lean none = []
      lean (some st) =
          if lt (dec 12 0) st
          then record {
            id = codes "misfire.with_lean_trims";
            title = codes "Random misfire with lean trims";
            summary =
                codes
                  "P0300 without cylinder IDs plus lean trims often tracks fuel/air issues more than a single bad coil.";
            confidence = 66;
            evidence = (codes "STFT B1=" ++ fixed 1 st ++ codes "% with P0300") ∷ [];
            related_dtcs = related m (codes "P0300" ∷ codes "P0171" ∷ []);
            severity = watch;
          }
            ∷ []
          else []

  unfoldable pub misfire_fingerprint : Text → Seen F → Option (LiveSnapshot F) → List Finding
  unfolding has_any misfire_single misfire_lean text_eq
  misfire_fingerprint focus m live =
      let cyl = keep (λ c. has_any m (c ∷ [])) cylinder_codes in
      if not (text_eq focus (codes "P0300")) && not (has_any m (codes "P0300" ∷ []))
      then []
      else if length cyl == 1
      then misfire_single cyl
      else if length cyl == 0
      then misfire_lean m live
      else []

  unfoldable pub link_fragility : Option (LinkMetrics F) → List Finding
  unfolding show_nat
  link_fragility none = []
  link_fragility (some link) =
      if lt (dec 0 0) link.confidence && lt link.confidence (dec 55 0)
      then record {
        id = codes "link.fragile";
        title = codes "Fragile OBD link during scan";
        summary =
            codes
              "Elevated command failures/timeouts. Soft hint of gateway sleep, adapter quality, or intermittent wiring — do not trust incomplete PID packs alone.";
        confidence = 62;
        evidence =
            (codes "attempts="
              ++ show_nat link.command_attempts
              ++ codes " failures="
              ++ show_nat link.command_failures
              ++ codes " timeouts="
              ++ show_nat link.timeouts
              ++ codes " confidence="
              ++ fixed 0 link.confidence)
            ∷ [];
        related_dtcs = [];
        severity = watch;
      }
        ∷ []
      else []

  unfoldable pub module_voltage : Option (LiveSnapshot F) → List Finding
  module_voltage none = []
  module_voltage (some live) = low live.module_volts
    where
      low : Option F → List Finding
      low none = []
      low (some v) =
          if lt (dec 0 0) v && lt v (dec 118 1)
          then record {
            id = codes "power.low_module_voltage";
            title = codes "Low control-module voltage";
            summary =
                codes
                  "Module voltage under ~11.8V can cause ghost U-codes and flaky communications. Stabilize battery/charging before deep electrical diagnosis.";
            confidence = 76;
            evidence = (codes "module_voltage=" ++ fixed 2 v ++ codes "V") ∷ [];
            related_dtcs = [];
            severity = likely;
          }
            ∷ []
          else []
