-- ===== src/Explain/Packet/Lean.antt =====
-- How large a packet is, and what it keeps (internal/explain/packet.go).
use mechmind.Base.{
  Bool-cases, length-map, Option-cases, length-append, length-take, take, All, ℕ, suc, ◌+◌, ◌-◌,
  ◌≤◌, ◌<◌, ◌≡◌, refl, inl, inr, Option, none, some, List, [], ◌∷◌, map, arith, leb, length,
}
use mechmind.Base.Float.{Floats}
use mechmind.Text.{codes, fields, join, Text}
use mechmind.Diagnosis.{CoOccurStat, Finding}
use mechmind.Explain.Packet.{
  kb_of, PacketFinding, history_line, KnowledgeArticle, packet_finding, packet_kb, clip_sentence,
  clip_at, last_index, strong_codes, PacketKb, Packet, BuildInput, build_packet,
}

-- At most 282 bytes of summary, and three entries in each list.
abbrev pub IsLeanKb : Option PacketKb → Type 0
IsLeanKb none = Unit
IsLeanKb (some kb) =
    (length kb.summary ≤ 282)
    × (length kb.causes ≤ 3)
    × (length kb.tests ≤ 3)
    × (length kb.parts ≤ 3)

abbrev pub IsLean : {F : Type 0} → Packet F → Type 0
IsLean p =
    (length p.findings ≤ 3)
    × All (λ f. length f.evidence ≤ 2) p.findings
    × IsLeanKb p.kb
    × (length p.co_occur ≤ 2)
    × (length p.history ≤ 2)

length-take-le : {A : Type 0} (n : ℕ) (xs : List A) → length (take n xs) ≤ n
length-take-le n xs = omega (arith, length-take n xs)

length-clip_at :
    (cut : Option ℕ) (s : Text) (n : ℕ)
    → 1 ≤ n
    → ((i : ℕ) → cut ≡ some i → i < n)
    → length (clip_at cut s n) ≤ n + 2
unfolding clip_at
length-clip_at none s n h bound =
    omega
      (arith, length-append (take (n - 1) s) (0xE2 ∷ 0x80 ∷ 0xA6 ∷ []), length-take-le (n - 1) s)
length-clip_at (some i) s n h bound = ground (
  arith,
  bound i refl,
  length-append (take (n - 1) s) (0xE2 ∷ 0x80 ∷ 0xA6 ∷ []),
  length-take-le (n - 1) s,
  length-take-le (i + 1) s,
)

last_index-lt : (s sub : Text) (i : ℕ) → last_index s sub ≡ some i → i < length s
unfolding last_index
last_index-lt [] sub i e = cc
last_index-lt (c ∷ s) sub i e = elim (Option-cases (last_index s sub)) [
  | inl last ↦ let q = rw last at e in ground (arith, q)
  | inr (j, later) ↦ let q = rw later at e in ground (arith, q, last_index-lt s sub j later)
]

length-clip_sentence : (s : Text) (n : ℕ) → 1 ≤ n → length (clip_sentence s n) ≤ n + 2
unfolding clip_sentence
length-clip_sentence s n h =
    let t = join (fields s) (codes " ") in
    elim (Bool-cases (leb (length t) n)) [
      | inl short ↦ rw short (ground arith)
      | inr long ↦ rw long (
          length-clip_at (last_index (take n t) (codes ". ")) t n h
            (λ i e. omega (arith, last_index-lt (take n t) (codes ". ") i e, length-take-le n t)))
    ]

packet_kb-IsLeanKb : (a : KnowledgeArticle) → IsLeanKb (some (packet_kb a))
unfolding packet_kb
packet_kb-IsLeanKb a = (
  length-clip_sentence a.summary 280 (omega arith),
  length-take-le 3 a.likely_causes,
  length-take-le 3 a.tests,
  length-take-le 3 a.parts,
)

kb_of-IsLeanKb : (a : Option KnowledgeArticle) → IsLeanKb (kb_of a)
unfolding kb_of
kb_of-IsLeanKb none = tt
kb_of-IsLeanKb (some a) = packet_kb-IsLeanKb a

packet_findings-All :
    (fs : List Finding) → All (λ (f : PacketFinding). length f.evidence ≤ 2) (map packet_finding fs)
unfolding packet_finding
packet_findings-All [] = tt
packet_findings-All (f ∷ fs) = (length-take-le 2 f.evidence, packet_findings-All fs)

module _ (R : Floats) where
  open R use {F}

  length-strong_codes :
      (n : ℕ) (cs : List (CoOccurStat F)) → n ≤ 1 → length (strong_codes R n cs) ≤ 2 - n
  unfolding strong_codes
  length-strong_codes n [] h = omega arith
  length-strong_codes n (c ∷ cs) h =
      ground (arith, length-strong_codes n cs, length-strong_codes (suc n) cs)

  -- A packet holds at most three findings with two lines of evidence each, two other codes and two
  -- lines of history; of an article it holds three entries of each list and 282 bytes of summary.
  pub build_packet-IsLean : (i : BuildInput F) → IsLean (build_packet R i)
  unfolding build_packet
  build_packet-IsLean i = (
    omega (arith, length-map packet_finding (take 3 i.findings), length-take-le 3 i.findings),
    packet_findings-All (take 3 i.findings),
    kb_of-IsLeanKb i.article,
    length-strong_codes 0 i.co_occur (omega arith),
    omega (arith, length-map history_line (take 2 i.history), length-take-le 2 i.history),
  )
