-- ===== src/Obd/Usb/Readings/Once.antt =====
-- What `ReadDTCs` returns (pkg/obd/usb.go).
use mechmind.Obd.Scan.{codes_or_nil}
use mechmind.Obd.Dtcs.{values, merge_replies}
use mechmind.Obd.Usb.Err.{Err}
use mechmind.Obd.Usb.Open.{ensure_open}
use mechmind.Obd.Types.{Dtc}
use mechmind.Base.{◌≤◌, ◌≡◌, refl, Option, none, some, List, [], arith}
use mechmind.Text.{Text, codes}
use mechmind.Obd.Usb.Command.{command}
use mechmind.Obd.Usb.Line.{caller}
use mechmind.Obd.Usb.Line.{Line}
use mechmind.Obd.Usb.State.{pure, or_return, ◌>>=◌, Usb}
use mechmind.Obd.Usb.Readings.{dtc_sources, ask_sources, read_dtcs, heard}
use mechmind.Obd.Dtcs.Once.{times, merge_replies_once}

module _ {L : Line} (quote : Text → Text) (F : Type 0) where
  -- What a reading is after the adapter has been opened: the error of the opening and nothing else,
  -- or the merge of what 03, 07 and 0A are answered, sent one after the other.
  pub IsDtcReading : Option Err × Usb L → (Option (List (Dtc F)) × Option Err) × Usb L → Type 0
  IsDtcReading (some e, u) out = out ≡ ((none, some e), u)
  IsDtcReading (none, u) out =
      let (confirmed, u1) = command L caller (codes "03") u in
      let (pending, u2) = command L caller (codes "07") u1 in
      let (permanent, u3) = command L caller (codes "0A") u2 in
      out ≡ (
        (some (values (merge_replies (heard confirmed) (heard pending) (heard permanent))), none),
        u3,
      )

  after_opening-IsDtcReading :
      (e : Option Err) (u : Usb L)
      → IsDtcReading
          (e, u)
          (or_return e
            (λ e. (none, some e))
            (do seen ← ask_sources L quote F dtc_sources []; pure (some (values seen), none))
            u)
  unfolding or_return ask_sources ◌>>=◌ merge_replies IsDtcReading
  after_opening-IsDtcReading none u = refl
  after_opening-IsDtcReading (some e) u = refl

  -- `ReadDTCs` returns the error of the opening without codes, or no error and the merge of the
  -- responses to the services 03, 07 and 0A, as confirmed, pending and permanent codes, each of
  -- which
  -- may be missing; it sends these three commands, in this order, and nothing else.
  pub read_dtcs-IsDtcReading :
      (u : Usb L) → IsDtcReading (ensure_open L quote u) (read_dtcs L quote F u)
  unfolding read_dtcs ◌>>=◌
  read_dtcs-IsDtcReading u =
      after_opening-IsDtcReading (ensure_open L quote u).0 (ensure_open L quote u).1

  reading_once :
      (opened : Option Err × Usb L) (out : (Option (List (Dtc F)) × Option Err) × Usb L) (k : Text)
      → IsDtcReading opened out
      → times k (codes_or_nil out.0.0) ≤ 1
  unfolding IsDtcReading
  reading_once (some e, u) out k q = rw q (omega arith)
  reading_once (none, u) out k q = rw q (merge_replies_once F _ _ _ k)

  -- Among the codes that `ReadDTCs` returns, no code stands twice, whatever the adapter answered.
  pub read_dtcs_once :
      (u : Usb L) (k : Text) → times k (codes_or_nil (read_dtcs L quote F u).0.0) ≤ 1
  read_dtcs_once u k = reading_once _ _ k (read_dtcs-IsDtcReading u)
