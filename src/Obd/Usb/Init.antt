-- ===== src/Obd/Usb/Init.antt =====
-- Waking and configuring the adapter (pkg/obd/usb.go: openPort, abandonPort, setBaud,
-- raiseModemLines, wake, configureELM, reopenAfterUSBReset, initELM).
pub mod Laws
pub mod Steps
pub mod Ready
pub mod Wait
use mechmind.Obd.Usb.Command.{command}
use mechmind.Base.Int.{ℤ}
use mechmind.Obd.Usb.Err.{not_open, wrap, plain, Err}
use mechmind.Obd.Usb.State.{
  report, or_return, modify, in_world, ◌>>◌, gets, change_world, ◌>>=◌, pure, M, Usb,
}
use mechmind.Obd.Elm.{looks_like_elm, clip_log}
use mechmind.Base.{
  ℕ, zero, suc, ◌+◌, ◌-◌, ◌/◌, false, not, Option, none, some, List, [], ◌∷◌, ◌++◌, ltb,
  if◌then◌else◌,
}
use mechmind.Text.{codes, show_int, Text}
use mechmind.Obd.Usb.Line.{
  reset_output, reset_input, timed_out, failed, raise_rts, read_timeout, caller, raise_dtr, opened,
  Opened, Line,
}

pub init_error : Text → Err → Err
init_error c e = wrap (codes "init " ++ c ++ codes ": ") e []

-- "not an ELM prompt (%q)", with the quoted answer.
pub not_elm : Text → (Text → Text) → Text → Err
unfolding clip_log
not_elm at quote answer =
    plain (codes "not an ELM prompt" ++ at ++ codes " (" ++ quote (clip_log answer 80) ++ codes ")")

pub open_error : Text → Err → Err
open_error path e = wrap (codes "open " ++ path ++ codes ": ") e []

pub open_timed_out : Text → Err
open_timed_out path =
    plain (codes "open " ++ path ++ codes ": timed out after 12s — unplug/replug the adapter")

pub set_baud_error : ℤ → Err → Err
unfolding show_int
set_baud_error baud e = wrap (codes "set baud " ++ show_int baud ++ codes ": ") e []

abbrev pub configure_commands : List Text
configure_commands = codes "ATE0" ∷ codes "ATL0" ∷ codes "ATS0" ∷ codes "ATH0" ∷ codes "ATAL" ∷ []

pub not_back : Text → Err
not_back path = plain (codes "ATZ: " ++ path ++ codes " did not reappear")

module _ (L : Line) (quote : Text → Text) where
  open L use {Port, ctx_err, present, now, open_serial, close, set_mode, apply, sleep}

  -- The adapter with an open port.
  with_port : Port → ℤ → Usb L → Usb L
  with_port p baud u = record u { port = some p; baud = baud }

  take_opened : Opened Port → ℤ → M L (Option Err)
  unfolding with_port
  take_opened (opened p) baud = do
    change_world (apply p (read_timeout 150))
    modify (with_port p baud)
    pure none
  take_opened (failed e) baud = do path ← gets (λ u. u.device_path); pure (some (open_error path e))
  take_opened timed_out baud = do
    path ← gets (λ u. u.device_path)
    c ← gets (λ u. ctx_err u.world)
    or_return c (λ e. some (open_error path e)) (pure (some (open_timed_out path)))

  unfoldable pub open_port : ℤ → M L (Option Err)
  unfolding take_opened
  open_port baud = do
    path ← gets (λ u. u.device_path)
    o ← in_world (open_serial path baud)
    take_opened o baud

  close_async : Option Port → M L (Unit {0})
  close_async none = pure tt
  close_async (some p) = change_world (close p)

  without_port : Usb L → Usb L
  without_port u = record u { port = none; ready = false }

  unfoldable pub abandon_port : M L (Unit {0})
  unfolding close_async without_port
  abandon_port = do p ← gets (λ u. u.port); modify without_port; close_async p

  with_baud : ℤ → Usb L → Usb L
  with_baud baud u = record u { baud = baud }

  set_baud_on : Option Port → ℤ → M L (Option Err)
  unfolding with_baud
  set_baud_on none baud = pure (some not_open)
  set_baud_on (some p) baud = do
    e ← in_world (set_mode p baud)
    or_return e (λ e. some (set_baud_error baud e))
        (do
          modify (with_baud baud)
          change_world (apply p reset_input)
          change_world (apply p reset_output)
          pure none)

  unfoldable pub set_baud : ℤ → M L (Option Err)
  unfolding set_baud_on
  set_baud baud = do p ← gets (λ u. u.port); set_baud_on p baud

  raise_on : Option Port → M L (Unit {0})
  raise_on none = pure tt
  raise_on (some p) = do change_world (apply p raise_dtr); change_world (apply p raise_rts)

  unfoldable pub raise_modem_lines : M L (Unit {0})
  unfolding raise_on
  raise_modem_lines = do p ← gets (λ u. u.port); raise_on p

  wake_on : Option Port → M L (Option Err)
  wake_on none = pure (some not_open)
  wake_on (some p) = do
    ignored ← in_world (L.write p (13 ∷ []))
    e ← in_world (sleep 120)
    or_return e some (do change_world (apply p reset_input); pure none)

  unfoldable pub wake : M L (Option Err)
  unfolding wake_on
  wake = do p ← gets (λ u. u.port); wake_on p

  -- The loop of `configureELM` over its commands.
  configure_from : List Text → M L (Option Err)
  configure_from [] = do ignored ← command L caller (codes "ATSTFF"); pure none
  configure_from (c ∷ cs) = do
    e ← gets (λ u. ctx_err u.world)
    or_return e some (do
      report (codes "Adapter " ++ c)
      r ← command L caller c
      or_return r.1 (λ e. some (init_error c e)) (configure_from cs))

  unfoldable pub configure_elm : M L (Option Err)
  unfolding configure_from
  configure_elm = configure_from configure_commands

  -- The polling loop of `reopenAfterUSBReset`. Each round sleeps for 100 ms, so the fuel outlasts
  -- the deadline of 3 seconds; `none` means that it ran out.
  unfoldable pub await_port : ℕ → ℕ → M L (Option (Option Err))
  await_port zero deadline = pure none
  await_port (suc fuel) deadline = do
    c ← gets (λ u. ctx_err u.world)
    or_return c (λ e. some (some e))
        (do
          here ← gets (λ u. present u.device_path u.world)
          late ← gets (λ u. ltb deadline (now u.world))
          path ← gets (λ u. u.device_path)
          let again : M L (Option (Option Err)) = do
            e ← in_world (sleep 100)
            or_return e (λ e. some (some e)) (await_port fuel deadline)
          if here
              then pure (some none)
              else if late
              then pure (some (some (not_back path)))
              else again)

  -- The end of `reopenAfterUSBReset`, with the port open again.
  identify_again : M L (Option Err)
  identify_again = do
    e ← wake
    or_return e some (do
      report (codes "Adapter ATI")
      r ← command L caller (codes "ATI")
      or_return r.1 (λ e. some (wrap (codes "ATI after ATZ: ") e []))
          (if looks_like_elm r.0
            then (do report (codes "ELM identified: " ++ clip_log r.0 60); configure_elm)
            else pure (some (not_elm (codes " after ATZ") quote r.0))))

  after_wait : Option (Option Err) → ℤ → M L (Option Err)
  unfolding identify_again
  after_wait none baud = pure (some (plain (codes "out of fuel")))
  after_wait (some (some e)) baud = pure (some e)
  after_wait (some none) baud = do e ← open_port baud; or_return e some identify_again

  unfoldable pub reopen_after_usb_reset : M L (Option Err)
  unfolding after_wait
  reopen_after_usb_reset = do
    baud ← gets (λ u. u.baud)
    abandon_port
    report (codes "Adapter USB-reset after ATZ; waiting for the port")
    start ← gets (λ u. now u.world)
    w ← await_port 32 (start + 3000)
    after_wait w baud
