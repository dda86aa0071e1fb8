-- ===== src/Explain/Packet/Top.antt =====
-- Which findings a packet keeps of those that the engine ranked (internal/explain/packet.go with
-- internal/diagnosis/engine.go).
use mechmind.Base.{
  All-drop, drop, All-imp, take, All, ℕ, zero, suc, ◌≤◌, ◌≡◌, Option, List, [], ◌∷◌, map, arith,
}
use mechmind.Base.Float.{Floats}
use mechmind.Text.{Text}
use mechmind.Diagnosis.{Finding}
use mechmind.Diagnosis.Rank.{IsRanked, IsDown}
use mechmind.Diagnosis.Analyze.{Input, analyze, analyze-IsRanked}
use mechmind.Explain.Packet.{BuildInput, packet_finding, PacketFinding, build_packet}

-- Nothing in the list is more confident than any of the packet's findings.
abbrev pub IsBelow : List PacketFinding → Finding → Type 0
IsBelow kept g = All (λ f. g.confidence ≤ f.confidence) kept

IsDown-All : (n : ℕ) (fs : List Finding) → IsDown n fs → All (λ g. g.confidence ≤ n) fs
IsDown-All n [] down = tt
IsDown-All n (f ∷ fs) (h, down) = (
  h,
  All-imp (λ g. g.confidence ≤ f.confidence) (λ g. g.confidence ≤ n) (λ g k. omega (arith, k, h)) fs
      (IsDown-All f.confidence fs down),
)

IsDown-IsRanked : (n : ℕ) (fs : List Finding) → IsDown n fs → IsRanked fs
IsDown-IsRanked n [] down = tt
IsDown-IsRanked n (f ∷ fs) (h, down) = down

All-IsBelow-nil : (fs : List Finding) → All (IsBelow []) fs
All-IsBelow-nil [] = tt
All-IsBelow-nil (f ∷ fs) = (tt, All-IsBelow-nil fs)

All-and :
    (P Q : Finding → Type 0) (fs : List Finding) → All P fs → All Q fs → All (λ f. P f × Q f) fs
All-and P Q [] hp hq = tt
All-and P Q (f ∷ fs) (p, hp) (q, hq) = ((p, q), All-and P Q fs hp hq)

ranked-IsBelow :
    (k : ℕ) (fs : List Finding)
    → IsRanked fs
    → All (IsBelow (map packet_finding (take k fs))) (drop k fs)
unfolding packet_finding
ranked-IsBelow zero fs ranked = All-IsBelow-nil fs
ranked-IsBelow (suc k) [] ranked = tt
ranked-IsBelow (suc k) (f ∷ fs) ranked =
    All-and (λ g. g.confidence ≤ f.confidence) (IsBelow (map packet_finding (take k fs)))
      (drop k fs)
      (All-drop (λ g. g.confidence ≤ f.confidence) k fs (IsDown-All f.confidence fs ranked))
      (ranked-IsBelow k fs (IsDown-IsRanked f.confidence fs ranked))

module _ (R : Floats) (fixed : ℕ → R.F → Text) (scan_float : Text → Option R.F) where
  open R use {F}

  -- A packet that is built from the findings of `Analyze` leaves out no finding that is more
  -- confident than one that it keeps.
  pub build_packet-IsBelow :
      (i : Input F) (b : BuildInput F)
      → b.findings ≡ analyze R fixed scan_float i
      → All (IsBelow (build_packet R b).findings) (drop 3 (analyze R fixed scan_float i))
  unfolding build_packet
  build_packet-IsBelow i b same =
      rw same
        (ranked-IsBelow 3 (analyze R fixed scan_float i) (analyze-IsRanked R fixed scan_float i).0)
