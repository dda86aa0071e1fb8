-- ===== src/Obd/Dtcs/Status.antt =====
-- What the three services make of a code.
use mechmind.Base.{
  none, ◌≡◌, refl, Bool, true, false, ◌||◌, Option, some, List, [], ◌∷◌, arith, if◌then◌else◌,
}
use mechmind.Text.{Text, text_eq}
use mechmind.Text.Laws.{text_eq_iff}
use mechmind.Obd.Types.{pending, permanent, confirmed, DtcStatus, Dtc}
use mechmind.Obd.Codes.{decode_dtcs, find_text}
use mechmind.Obd.Dtcs.{merge_reply, merge_replies, Seen, put, new_dtc, keeps, note_code, note_codes}

abbrev pub member : Text → List Text → Bool
member k [] = false
member k (c ∷ cs) = text_eq c k || member k cs

-- The entry of a code after one response with service status `status`.
abbrev entry_after : {F : Type 0} → DtcStatus → Text → Bool → Option (Dtc F) → Option (Dtc F)
entry_after status k true old = if keeps old then old else some (new_dtc status k)
entry_after status k false old = old

module _ {F : Type 0} where
  find_text-put :
      (k j : Text) (d : Dtc F) (m : Seen F)
      → find_text j (put k d m) ≡ (if text_eq k j then some d else find_text j m)
  unfolding put find_text
  find_text-put k j d [] = refl
  find_text-put k j d ((i, e) ∷ m) =
      ground (arith, text_eq_iff k j, text_eq_iff i k, text_eq_iff i j, find_text-put k j d m)

  pub note_code-if :
      (status : DtcStatus) (c : Text) (seen : Seen F)
      → note_code status c seen
        ≡ (if keeps (find_text c seen) then seen else put c (new_dtc status c) seen)
  unfolding note_code
  note_code-if status c seen = refl

  pub note_codes-cons :
      (status : DtcStatus) (c : Text) (cs : List Text) (seen : Seen F)
      → note_codes status (c ∷ cs) seen ≡ note_codes status cs (note_code status c seen)
  unfolding note_codes
  note_codes-cons status c cs seen = refl

  find_text-note_code :
      (status : DtcStatus) (c k : Text) (seen : Seen F)
      → find_text k (note_code status c seen)
        ≡ entry_after status k (text_eq c k) (find_text k seen)
  find_text-note_code status c k seen = ground (
    arith,
    note_code-if status c seen,
    find_text-put c k (new_dtc status c) seen,
    text_eq_iff c k,
  )

  entry_after_twice :
      (status : DtcStatus) (k : Text) (a b : Bool) (old : Option (Dtc F))
      → entry_after status k b (entry_after status k a old) ≡ entry_after status k (a || b) old
  entry_after_twice status k a b old = ground arith

  find_text-note_codes :
      (status : DtcStatus) (cs : List Text) (k : Text) (seen : Seen F)
      → find_text k (note_codes status cs seen)
        ≡ entry_after status k (member k cs) (find_text k seen)
  find_text-note_codes status [] k seen = unfold note_codes in refl
  find_text-note_codes status (c ∷ cs) k seen = rw (
    note_codes-cons,
    find_text-note_codes status cs k (note_code status c seen),
    find_text-note_code status c k seen,
    entry_after_twice,
  )

-- A response lists a code.
abbrev pub reported : Option Text → Text → Bool
reported none k = false
reported (some resp) k = member k (decode_dtcs resp)

-- The status that three responses give a code: confirmed wins, then permanent, then pending.
abbrev pub status_of : Option Text → Option Text → Option Text → Text → Option DtcStatus
status_of r03 r07 r0a k =
    if reported r03 k
    then some confirmed
    else if reported r0a k
    then some permanent
    else if reported r07 k
    then some pending
    else none

abbrev pub entry_of : {F : Type 0} → Option DtcStatus → Text → Option (Dtc F)
entry_of none k = none
entry_of (some status) k = some (new_dtc status k)

module _ {F : Type 0} where
  find_text-merge_reply :
      (status : DtcStatus) (r : Option Text) (k : Text) (seen : Seen F)
      → find_text k (merge_reply status r seen)
        ≡ entry_after status k (reported r k) (find_text k seen)
  find_text-merge_reply status none k seen = unfold merge_reply in refl
  find_text-merge_reply status (some resp) k seen =
      unfold merge_reply in find_text-note_codes status (decode_dtcs resp) k seen

  find_text-nil : (k : Text) → find_text {V = Dtc F} k [] ≡ none
  unfolding find_text
  find_text-nil k = refl

  pub merge_replies-merge_reply :
      (r03 r07 r0a : Option Text)
      → merge_replies {F = F} r03 r07 r0a
        ≡ merge_reply permanent r0a (merge_reply pending r07 (merge_reply confirmed r03 []))
  unfolding merge_replies
  merge_replies-merge_reply r03 r07 r0a = refl

  -- For every code: it is among the results just where one of the three services listed it, as
  -- confirmed if mode 03 did, else as permanent if mode 0A did, else as pending.
  pub merge_replies-status :
      (r03 r07 r0a : Option Text) (k : Text)
      → find_text {V = Dtc F} k (merge_replies r03 r07 r0a) ≡ entry_of (status_of r03 r07 r0a k) k
  merge_replies-status r03 r07 r0a k =
      rw
        (
          merge_replies-merge_reply,
          find_text-merge_reply permanent r0a k _,
          find_text-merge_reply pending r07 k _,
          find_text-merge_reply confirmed r03 k [],
          find_text-nil,
        )
        (ground arith)
