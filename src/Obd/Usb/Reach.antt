-- ===== src/Obd/Usb/Reach.antt =====
-- The driver's states over its whole life (pkg/obd/usb.go: NewUSBAdapter and the methods of Adapter
-- and LiveSampler).
use mechmind.Obd.Usb.Live.{read_live_snapshot}
use mechmind.Obd.Usb.Readings.Laws.{
  read_live_snapshot-IsSettled, read_freeze_frame-IsSettled, read_dtcs-IsSettled,
  identify-IsSettled,
}
use mechmind.Obd.Usb.Readings.{read_freeze_frame, read_dtcs, identify}
use mechmind.Obd.Usb.Open.Laws.{close_adapter-IsShut, ensure_open-open_adapter}
use mechmind.Base.Int.{pos}
use mechmind.Obd.Usb.Open.{close_adapter, ensure_open, open_adapter}
use mechmind.Obd.Usb.State.{Usb}
use mechmind.Base.{◌≡◌, refl, inr, false, none}
use mechmind.Base.Float.{Floats}
use mechmind.Text.{Text}
use mechmind.Obd.Usb.Line.{Line}
use mechmind.Obd.Usb.Open.Settled.{
  IsSettled-ReadyOpen, ensure_open-IsSettled, open_adapter-IsSettled, IsSettled,
}

-- The driver's fields after `NewUSBAdapter(path)`.
unfoldable pub new_usb_adapter : (L : Line) → Text → L.World → Usb L
new_usb_adapter L path w = record {
  device_path = path;
  baud = pos 38400;
  port = none;
  ready = false;
  world = w;
}

module _ {L : Line} (quote : Text → Text) (R : Floats) where
  -- The states that the driver's methods lead to from a new driver; the world may change in any way
  -- between the calls.
  pub data Reached : Usb L → Type 0 where
    made : (path : Text) (w : L.World) → Reached (new_usb_adapter L path w)
    after_open : (u : Usb L) → Reached u → Reached (open_adapter L quote u).1
    after_ensure_open : (u : Usb L) → Reached u → Reached (ensure_open L quote u).1
    after_close : (u : Usb L) → Reached u → Reached (close_adapter L quote u).1
    after_identify : (u : Usb L) → Reached u → Reached (identify L quote u).1
    after_dtcs : (u : Usb L) → Reached u → Reached (read_dtcs L quote R.F u).1
    after_freeze_frame :
        (u : Usb L) (code : Text) → Reached u → Reached (read_freeze_frame L quote R.F code u).1
    after_live : (u : Usb L) → Reached u → Reached (read_live_snapshot R L quote u).1
    waited : (u : Usb L) (w : L.World) → Reached u → Reached (record u { world = w })

  -- In every state that the driver's methods lead to, with the world changing in any way between
  -- them, the driver is ready with its port open, or it is not ready and holds no port.
  pub Reached-IsSettled : (u : Usb L) → Reached u → IsSettled u
  unfolding new_usb_adapter
  Reached-IsSettled _ (made path w) = inr (refl, refl)
  Reached-IsSettled _ (after_open u r) = open_adapter-IsSettled quote u (Reached-IsSettled u r)
  Reached-IsSettled _ (after_ensure_open u r) =
      (ensure_open-IsSettled quote).at u (Reached-IsSettled u r)
  Reached-IsSettled _ (after_close u r) = inr (close_adapter-IsShut quote u)
  Reached-IsSettled _ (after_identify u r) = (identify-IsSettled quote).at u (Reached-IsSettled u r)
  Reached-IsSettled _ (after_dtcs u r) =
      (read_dtcs-IsSettled quote R.F).at u (Reached-IsSettled u r)
  Reached-IsSettled _ (after_freeze_frame u code r) =
      (read_freeze_frame-IsSettled quote R.F code).at u (Reached-IsSettled u r)
  Reached-IsSettled _ (after_live u r) =
      (read_live_snapshot-IsSettled R quote).at u (Reached-IsSettled u r)
  Reached-IsSettled _ (waited u w r) = Reached-IsSettled u r

  -- In every such state `ensureOpen` does just what `Open` does: its branch that reopens the port
  -- of
  -- a ready driver without a handshake is not taken.
  pub ensure_open-open_adapter-Reached :
      (u : Usb L) → Reached u → ensure_open L quote u ≡ open_adapter L quote u
  ensure_open-open_adapter-Reached u r =
      ensure_open-open_adapter quote u (IsSettled-ReadyOpen quote u (Reached-IsSettled u r))
