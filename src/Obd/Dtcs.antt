-- ===== src/Obd/Dtcs.antt =====
-- The map `seen` of `ReadDTCs` (pkg/obd/usb.go): the codes of three services, each kept once.
pub mod Status
pub mod Once
use mechmind.Base.{Bool, true, false, Option, none, some, List, [], ◌∷◌, if◌then◌else◌}
use mechmind.Text.{Text, text_eq}
use mechmind.Obd.Types.{DtcStatus, pending, confirmed, permanent, Dtc}
use mechmind.Obd.Codes.{decode_dtcs, describe_code, find_text}

abbrev pub is_confirmed : DtcStatus → Bool
is_confirmed confirmed = true
is_confirmed s = false

abbrev pub Seen : Type 0 → Type 0
Seen F = List (Text × Dtc F)

module _ {F : Type 0} where
  unfoldable pub put : Text → Dtc F → Seen F → Seen F
  put k d [] = (k, d) ∷ []
  put k d ((j, e) ∷ m) = if text_eq j k then (k, d) ∷ m else (j, e) ∷ put k d m

  abbrev pub new_dtc : DtcStatus → Text → Dtc F
  new_dtc status code = record {
    code = code;
    status = status;
    freeze_frame = none;
    description = describe_code code;
  }

  abbrev keeps : Option (Dtc F) → Bool
  keeps none = false
  keeps (some d) = is_confirmed d.status

  -- One code of a response: a confirmed entry stays, any other is replaced.
  pub note_code : DtcStatus → Text → Seen F → Seen F
  unfolding put
  note_code status code seen =
      if keeps (find_text code seen) then seen else put code (new_dtc status code) seen

  pub note_codes : DtcStatus → List Text → Seen F → Seen F
  unfolding note_code
  note_codes status [] seen = seen
  note_codes status (c ∷ cs) seen = note_codes status cs (note_code status c seen)

  -- One source: a response that could not be read is passed over.
  unfoldable pub merge_reply : DtcStatus → Option Text → Seen F → Seen F
  unfolding note_codes
  merge_reply status none seen = seen
  merge_reply status (some resp) seen = note_codes status (decode_dtcs resp) seen

  -- The values of the map; Go gives them in any order.
  unfoldable pub values : Seen F → List (Dtc F)
  values [] = []
  values ((k, d) ∷ m) = d ∷ values m

-- The sources of `ReadDTCs` in their order, with what each of them answered.
unfoldable pub merge_replies : {F : Type 0} → Option Text → Option Text → Option Text → Seen F
unfolding merge_reply
merge_replies r03 r07 r0a =
    merge_reply permanent r0a (merge_reply pending r07 (merge_reply confirmed r03 []))
