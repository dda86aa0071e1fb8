-- ===== src/Obd/Usb/Open.antt =====
-- Opening and closing the adapter (pkg/obd/usb.go: Open, ensureOpen, Close, parkAdapter).
pub mod Laws
pub mod Settled
use mechmind.Obd.Elm.{baud_candidates}
use mechmind.Obd.Usb.Banner.{init_elm}
use mechmind.Obd.Usb.Command.{command}
use mechmind.Obd.Usb.Init.{raise_modem_lines, not_elm, set_baud, abandon_port, open_port}
use mechmind.Base.Int.{negsuc, pos, ℤ}
use mechmind.Obd.Usb.Err.{plain, wrap, Err}
use mechmind.Obd.Usb.State.{modify, on_error, or_return, gets, report, ◌>>=◌, ◌>>◌, pure, M, Usb}
use mechmind.Obd.Detect.{
  j2534_text, j2534_openport, elm_candidate, unknown, AdapterKind, is_j2534, inspect_serial_port,
  SerialPort, usb_nickname,
}
use mechmind.Base.{
  ℕ, zero, suc, ◌+◌, ◌/◌, Bool, true, false, not, ◌&&◌, Option, none, some, List, [], ◌∷◌, ◌++◌,
  ltb, if◌then◌else◌, length,
}
use mechmind.Text.{show_nat, show_int, codes, trim_space, text_eq, Text}
use mechmind.Obd.Usb.Line.{background, Line}

-- How the loop over the baud rates ends.
pub data Tried : Type 0 where
  ready : Tried
  stopped : Err → Tried
  exhausted : Option Err → Tried

pub no_path : Err
no_path = plain (codes "usb device path is required")

-- `ErrJ2534Unsupported`, wrapped.
pub unsupported : SerialPort → Err
unsupported p = record {
  message =
      j2534_text
      ++ codes " ("
      ++ p.path
      ++ codes " "
      ++ p.vid
      ++ codes ":"
      ++ p.pid
      ++ codes " "
      ++ p.product
      ++ codes ")";
  is_stuck = false;
  is_eof = false;
  is_unsupported = true;
}

pub replug : Text → Err → Err
replug path e = wrap (path ++ codes ": ") e (codes " — unplug/replug the adapter")

-- The error after the last baud rate; `last` is nil if no rate was tried.
last_or : Option Err → Err
last_or none = plain (codes "no response")
last_or (some e) = e

pub gave_up : Text → SerialPort → Option Err → Err
unfolding last_or usb_nickname trim_space text_eq
gave_up path p last =
    let id = trim_space (p.vid ++ codes ":" ++ p.pid) in
    let nick = usb_nickname p.vid p.pid in
    if not (text_eq nick []) && not (text_eq id (codes ":"))
    then wrap (path ++ codes " [" ++ nick ++ codes " " ++ id ++ codes "]: ") (last_or last)
        (codes " — no ELM banner; unplug/replug, or use the dongle that answered ELM327 v1.5")
    else wrap (path ++ codes ": ") (last_or last)
        (codes " — unplug/replug the adapter, ignition ON, then try again")

abbrev rates_or_default : List ℤ → List ℤ
rates_or_default [] = pos 38400 ∷ []
rates_or_default (b ∷ bs) = b ∷ bs

abbrev first_rate : List ℤ → ℤ
first_rate [] = pos 38400
first_rate (b ∷ bs) = b

-- The text of an AdapterKind.
kind_text : AdapterKind → Text
kind_text unknown = codes "unknown"
kind_text elm_candidate = codes "elm_candidate"
kind_text j2534_openport = codes "j2534_openport"

module _ (L : Line) (quote : Text → Text) where
  open L use {ctx_err, identity}

  now_ready : Usb L → Usb L
  now_ready u = record u { ready = true }

  report_rate : ℕ → ℕ → ℤ → M L (Unit {0})
  report_rate i total baud = report (
      codes "Trying "
      ++ show_int baud
      ++ codes " baud ("
      ++ show_nat (i + 1)
      ++ codes "/"
      ++ show_nat total
      ++ codes ") without reopening")

  switch_rate : ℕ → ℕ → ℤ → M L (Option Err)
  unfolding report_rate
  switch_rate zero total baud = pure none
  switch_rate (suc i) total baud = do report_rate (suc i) total baud; set_baud L quote baud

  stop_with : Err → Err → M L Tried
  stop_with e reason = do abandon_port L quote; pure (stopped reason)

  -- The loop of `Open`; `i` counts the rates before and `last` is the latest error.
  unfoldable pub try_from : ℕ → ℕ → List ℤ → Option Err → M L Tried
  unfolding switch_rate stop_with now_ready
  try_from total i [] last = pure (exhausted last)
  try_from total i (baud ∷ bauds) last = do
    c ← gets (λ u. ctx_err u.world)
    let next : Err → M L Tried = λ e. try_from total (suc i) bauds (some e)
    on_error c (λ e. stop_with e e)
        (do
          s ← switch_rate i total baud
          on_error s (λ e. do report e.message; next e)
              (do
                r ← init_elm L quote
                path ← gets (λ u. u.device_path)
                on_error r
                    (λ e. do
                      report (show_int baud ++ codes " baud: " ++ e.message)
                      if e.is_stuck then stop_with e (replug path e) else next e)
                    (do modify now_ready; pure ready)))

  finish_open : SerialPort → Tried → M L (Option Err)
  finish_open p ready = pure none
  finish_open p (stopped e) = pure (some e)
  finish_open p (exhausted last) = do
    abandon_port L quote
    path ← gets (λ u. u.device_path)
    pure (some (gave_up path p last))

  announce : SerialPort → M L (Unit {0})
  unfolding kind_text
  announce p =
      if text_eq p.vid []
      then pure tt
      else report (
          codes "USB "
          ++ p.vid
          ++ codes ":"
          ++ p.pid
          ++ codes " "
          ++ kind_text p.kind
          ++ (if text_eq (usb_nickname p.vid p.pid) []
              then []
              else codes " (" ++ usb_nickname p.vid p.pid ++ codes ")"))

  open_rates : SerialPort → List ℤ → M L (Option Err)
  unfolding finish_open
  open_rates p bauds = do
    e ← open_port L quote (first_rate bauds)
    or_return e some
        (do raise_modem_lines L quote; t ← try_from (length bauds) 0 bauds none; finish_open p t)

  open_device : Text → M L (Option Err)
  unfolding open_rates announce
  open_device path = do
    p ← gets (λ u. inspect_serial_port (λ path. identity path u.world) path)
    if is_j2534 p.kind then pure (some (unsupported p)) else (do
      announce p
      bauds ← gets (λ u. rates_or_default (baud_candidates u.baud))
      report
          (codes "Opening " ++ path ++ codes " at " ++ show_int (first_rate bauds) ++ codes " baud")
      open_rates p bauds)

  open_closed : Option L.Port → M L (Option Err)
  unfolding open_device
  open_closed (some p) = pure none
  open_closed none = do
    path ← gets (λ u. u.device_path)
    if text_eq path [] then pure (some no_path) else open_device path

  -- `Open`.
  unfoldable pub open_adapter : M L (Option Err)
  unfolding open_closed
  open_adapter = do p ← gets (λ u. u.port); open_closed p

  park_on : Option L.Port → M L (Unit {0})
  park_on none = pure tt
  park_on (some p) = do
    report (codes "Parking adapter")
    ignored ← command L (background 2000) (codes "ATWS")
    pure tt

  -- `Close`, with `parkAdapter`.
  unfoldable pub close_adapter : M L (Unit {0})
  unfolding park_on
  close_adapter = do p ← gets (λ u. u.port); park_on p; abandon_port L quote

  abbrev is_positive : ℤ → Bool
  is_positive (pos n) = ltb 0 n
  is_positive (negsuc n) = false

  ensure_closed : Option L.Port → M L (Option Err)
  ensure_closed (some p) = pure none
  ensure_closed none = do
    reconnect ← gets (λ u. u.ready && is_positive u.baud)
    baud ← gets (λ u. u.baud)
    path ← gets (λ u. u.device_path)
    if reconnect
        then (do
          report (codes "Reconnecting " ++ path ++ codes " at " ++ show_int baud ++ codes " baud")
          open_port L quote baud)
        else open_adapter

  unfoldable pub ensure_open : M L (Option Err)
  unfolding ensure_closed
  ensure_open = do p ← gets (λ u. u.port); ensure_closed p
