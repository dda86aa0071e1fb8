-- ===== src/Obd/Dtcs/Once.antt =====
-- No code is listed twice in the result of `ReadDTCs`.
use mechmind.Obd.Dtcs.Status.{merge_replies-merge_reply, note_code-if, note_codes-cons}
use Prim.Native.Nat.{max}
use mechmind.Base.{
  ℕ, ◌+◌, ◌≤◌, ◌≡◌, refl, Option, none, some, List, [], ◌∷◌, arith, if◌then◌else◌, All, Bool-cases,
  inl, inr,
}
use mechmind.Text.{Text, text_eq}
use mechmind.Text.Laws.{text_eq_iff}
use mechmind.Obd.Types.{DtcStatus, pending, confirmed, permanent, Dtc}
use mechmind.Obd.Codes.{decode_dtcs, find_text}
use mechmind.Obd.Dtcs.{
  Seen, put, new_dtc, keeps, note_code, note_codes, merge_reply, merge_replies, values,
}

module _ {F : Type 0} where
  -- How often a list of results names a code.
  abbrev pub times : Text → List (Dtc F) → ℕ
  times k [] = 0
  times k (d ∷ ds) = let n = times k ds in if text_eq d.code k then n + 1 else n

  -- Every entry stands under its own code, and no code stands twice.
  record Inv (seen : Seen F) : Type 0 where
    keyed : All (λ (e : Text × Dtc F). e.0 ≡ e.1.code) seen
    once : (k : Text) → times k (values seen) ≤ 1

  put-keyed :
      (c : Text) (d : Dtc F) (m : Seen F)
      → c ≡ d.code
      → All (λ (e : Text × Dtc F). e.0 ≡ e.1.code) m
      → All (λ (e : Text × Dtc F). e.0 ≡ e.1.code) (put c d m)
  unfolding put
  put-keyed c d [] own h = (own, tt)
  put-keyed c d ((j, e) ∷ m) own (pj, h) = ground (arith, put-keyed c d m own h)

  times-put :
      (k c : Text) (d : Dtc F) (m : Seen F)
      → c ≡ d.code
      → All (λ (e : Text × Dtc F). e.0 ≡ e.1.code) m
      → times k (values (put c d m))
        ≤ (if text_eq c k then max 1 (times k (values m)) else times k (values m))
  unfolding put values
  times-put k c d [] own h = ground arith
  times-put k c d ((j, e) ∷ m) own (pj, h) =
      ground (arith, text_eq_iff j c, text_eq_iff c k, times-put k c d m own h)

  put-Inv : (c : Text) (d : Dtc F) (m : Seen F) → c ≡ d.code → Inv m → Inv (put c d m)
  put-Inv c d m own h = record {
    keyed = put-keyed c d m own h.keyed;
    once = λ k. ground (arith, times-put k c d m own h.keyed, h.once k);
  }

  note_code-Inv :
      (status : DtcStatus) (c : Text) (seen : Seen F) → Inv seen → Inv (note_code status c seen)
  note_code-Inv status c seen h = rw note_code-if (elim (Bool-cases (keeps (find_text c seen))) [
    | inl kept ↦ rw kept h
    | inr fresh ↦ rw fresh (put-Inv c (new_dtc status c) seen refl h)
  ])

  note_codes-Inv :
      (status : DtcStatus) (cs : List Text) (seen : Seen F)
      → Inv seen
      → Inv (note_codes status cs seen)
  note_codes-Inv status [] seen h = unfold note_codes in h
  note_codes-Inv status (c ∷ cs) seen h =
      rw note_codes-cons
        (note_codes-Inv status cs (note_code status c seen) (note_code-Inv status c seen h))

  merge_reply-Inv :
      (status : DtcStatus) (r : Option Text) (seen : Seen F)
      → Inv seen
      → Inv (merge_reply status r seen)
  merge_reply-Inv status none seen h = unfold merge_reply in h
  merge_reply-Inv status (some resp) seen h =
      unfold merge_reply in note_codes-Inv status (decode_dtcs resp) seen h

  nil-Inv : Inv []
  unfolding values
  nil-Inv = record { keyed = tt; once = λ k. omega arith }

-- Whatever the services answered, no code is listed twice.
pub merge_replies_once :
    (F : Type 0) (r03 r07 r0a : Option Text) (k : Text)
    → times k (values (merge_replies {F = F} r03 r07 r0a)) ≤ 1
merge_replies_once F r03 r07 r0a =
    rw merge_replies-merge_reply
      (merge_reply-Inv permanent r0a _
        (merge_reply-Inv pending r07 _ (merge_reply-Inv confirmed r03 [] nil-Inv))).once
