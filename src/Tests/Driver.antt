-- ===== src/Tests/Driver.antt =====
-- Runs of the USB driver (pkg/obd/usb.go) on a line where every command is answered at once.
use mechmind.Obd.Usb.Open.Settled.{IsSettled}
use mechmind.Tests.Numbers.{whole}
use mechmind.Obd.Usb.Readings.{read_dtcs, identify}
use mechmind.Obd.Usb.Init.Wait.{await_port-three_seconds}
use mechmind.Obd.Usb.Init.{await_port}
use mechmind.Obd.Usb.Err.{plain}
use mechmind.Obd.Usb.Init.Ready.{IsShut}
use mechmind.Obd.Usb.Open.{close_adapter, open_adapter, ensure_open}
use mechmind.Obd.Usb.Reach.{
  made, after_identify, after_close, after_dtcs, Reached-IsSettled, new_usb_adapter,
  ensure_open-open_adapter-Reached, Reached,
}
use mechmind.Obd.Usb.Open.Laws.{open_adapter-OpenPost, OpenPost}
use mechmind.Base.{is_some, ℕ, ◌+◌, ◌≡◌, refl, true, none, [], ◌∷◌, arith}
use mechmind.Text.{codes, Text}
use mechmind.Obd.Usb.Line.{answered, opened, Line}
use mechmind.Obd.Usb.State.{Usb}

-- The world is a clock.
abbrev pub lively : Line
lively = record {
  World = ℕ;
  Port = Unit {0};
  ctx_err = λ w. none;
  identity = λ path w. (codes "1a86", codes "7523", [], codes "USB Serial");
  present = λ path w. true;
  now = λ w. w;
  open_serial = λ path baud w. (opened tt, w);
  close = λ p w. w;
  set_mode = λ p baud w. (none, w);
  apply = λ p s w. w;
  write = λ p s w. (none, w);
  session = λ p ctx ms w. (
    record {
      reads = record { bytes = codes "ELM327 v1.5>"; err = none } ∷ [];
      ending = answered;
      ctx_error = plain (codes "context deadline exceeded");
    },
    w,
  );
  sleep = λ ms w. (none, w + ms);
  report = λ msg w. w;
  sleep-now = λ ms w e. omega arith;
}

abbrev pub same : Text → Text
same t = t

abbrev pub fresh : Usb lively
fresh = new_usb_adapter lively (codes "/dev/ttyUSB0") 0

pub fresh-IsShut : IsShut fresh
unfolding new_usb_adapter
fresh-IsShut = (refl, refl)

open_adapter-OpenPost_example :
    OpenPost (open_adapter lively same fresh).0 (open_adapter lively same fresh).1
open_adapter-OpenPost_example = open_adapter-OpenPost same fresh fresh-IsShut

abbrev used : Usb lively
used =
    (read_dtcs lively same whole.F (close_adapter lively same (identify lively same fresh).1).1).1

used-Reached : Reached same whole used
used-Reached = after_dtcs _ (after_close _ (after_identify _ (made (codes "/dev/ttyUSB0") 0)))

Reached-IsSettled_example : IsSettled used
Reached-IsSettled_example = Reached-IsSettled same whole used used-Reached

ensure_open-open_adapter-Reached_example :
    ensure_open lively same used ≡ open_adapter lively same used
ensure_open-open_adapter-Reached_example =
    ensure_open-open_adapter-Reached same whole used used-Reached

await_port-three_seconds_example : is_some (await_port lively same 32 (0 + 3000) fresh).0 ≡ true
unfolding new_usb_adapter
await_port-three_seconds_example = await_port-three_seconds same fresh
