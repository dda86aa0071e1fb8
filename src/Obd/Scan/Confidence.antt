-- ===== src/Obd/Scan/Confidence.antt =====
-- The confidence of a link (pkg/obd/types.go: linkConfidence).
use mechmind.Base.{Bool-cases, ◌≡◌, inl, inr, false, ◌==◌, if◌then◌else◌}
use mechmind.Base.Float.{Floats}
use mechmind.Obd.Types.{LinkMetrics}
use mechmind.Obd.Scan.{clamp, link_confidence}

module _ (R : Floats) where
  open R use {F, dec, lt, lt-dec}

  -- Neither below 0 nor above 100.
  abbrev pub IsPercent : F → Type 0
  IsPercent c = (lt c (dec 0 0) ≡ false) × (lt (dec 100 0) c ≡ false)

  zero-IsPercent : IsPercent (dec 0 0)
  zero-IsPercent = (lt-dec 0 0, lt-dec 100 0)

  hundred-IsPercent : IsPercent (dec 100 0)
  hundred-IsPercent = (lt-dec 100 0, lt-dec 100 100)

  cap-IsPercent :
      (c : F) → lt c (dec 0 0) ≡ false → IsPercent (if lt (dec 100 0) c then dec 100 0 else c)
  cap-IsPercent c h = elim (Bool-cases (lt (dec 100 0) c)) [
    | inl above ↦ rw above hundred-IsPercent
    | inr within ↦ rw within (h, within)
  ]

  clamp-IsPercent : (c : F) → IsPercent (clamp R c)
  unfolding clamp
  clamp-IsPercent c = elim (Bool-cases (lt c (dec 0 0))) [
    | inl below ↦ rw below (cap-IsPercent (dec 0 0) (lt-dec 0 0))
    | inr above ↦ rw above (cap-IsPercent c above)
  ]

  -- Whatever the counters, the confidence is not below 0 and not above 100.
  pub link_confidence-IsPercent : (m : LinkMetrics F) → IsPercent (link_confidence R m)
  unfolding link_confidence
  link_confidence-IsPercent m = elim (Bool-cases (m.command_attempts == 0)) [
    | inl idle ↦ rw idle zero-IsPercent
    | inr busy ↦ rw busy (clamp-IsPercent _)
  ]
