-- ===== src/Obd/Usb/Adapter.antt =====
-- The USB driver as an adapter (pkg/obd/usb.go), and what a pass leaves of it.
use mechmind.Obd.Usb.Live.{read_live_snapshot}
use mechmind.Obd.Usb.Init.Laws.{no_some}
use mechmind.Obd.Usb.Open.Laws.{close_adapter-IsShut, open_adapter-OpenPost, OpenPost}
use mechmind.Obd.Usb.Init.Ready.{IsShut}
use mechmind.Obd.Usb.Err.{Err}
use mechmind.Base.{◌≡◌, sym, Option, none, some}
use mechmind.Base.Float.{Floats}
use mechmind.Text.{codes, Text}
use mechmind.Obd.Types.{usb}
use mechmind.Obd.Usb.Line.{Line}
use mechmind.Obd.Usb.State.{Usb}
use mechmind.Obd.Usb.Open.{close_adapter, open_adapter}
use mechmind.Obd.Scan.{Adapter, scan}
use mechmind.Obd.Usb.Readings.{identify, read_dtcs, read_freeze_frame}
use mechmind.Obd.Scan.Release.{scan-keeps}

abbrev pub usb_adapter : (L : Line) → (Text → Text) → (R : Floats) → Adapter R.F
usb_adapter L quote R = record {
  State = Usb L;
  name = codes "elm327-usb";
  link_type = usb;
  open_up = open_adapter L quote;
  close = λ u. (close_adapter L quote u).1;
  identify = identify L quote;
  read_dtcs = read_dtcs L quote R.F;
  read_freeze_frame = read_freeze_frame L quote R.F;
  read_live = some (read_live_snapshot R L quote);
  ctx_err = λ u. L.ctx_err u.world;
  report = λ msg u. record u { world = L.report msg u.world };
}

module _ {L : Line} (quote : Text → Text) (R : Floats) where
  failed_open : (e : Option Err) (x : Err) (u : Usb L) → e ≡ some x → OpenPost e u → IsShut u
  failed_open none x u q h = no_some (sym q)
  failed_open (some e) x u q h = h

  -- However a pass over a shut driver ends, with a result or with an error at any step, it leaves
  -- the driver without a port and not ready.
  pub scan-IsShut : (u : Usb L) → IsShut u → IsShut (scan R (usb_adapter L quote R) u).1
  scan-IsShut u h =
      scan-keeps R (usb_adapter L quote R) IsShut u (λ msg u h. h)
        (λ u x h q. failed_open _ x _ q (open_adapter-OpenPost quote u h))
        (λ u. close_adapter-IsShut quote u) h
