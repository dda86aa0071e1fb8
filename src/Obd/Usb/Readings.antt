-- ===== src/Obd/Usb/Readings.antt =====
-- What the driver reads from the car (pkg/obd/usb.go: Identify, findBus, readVIN, ReadDTCs,
-- ReadFreezeFrame).
pub mod Laws
pub mod Once
use mechmind.Obd.Usb.Command.{command}
use mechmind.Obd.Elm.{pid0100_supported, clip_log, elm_bus_protocols}
use mechmind.Obd.Usb.Err.{wrap, plain, Err}
use mechmind.Obd.Vin.{extract_vin}
use mechmind.Base.{is_some, ◌+◌, not, ◌||◌, Option, none, some, List, [], ◌∷◌, ◌++◌, if◌then◌else◌}
use mechmind.Text.{text_eq, to_upper, codes, contains, trim_space, Text}
use mechmind.Obd.Types.{
  permanent, pending, text, confirmed, Dtc, FreezeFrame, DtcStatus, VehicleInfo,
}
use mechmind.Obd.Usb.Line.{caller, Line}
use mechmind.Obd.Usb.State.{on_error, or_return, Usb, M, ◌>>=◌, ◌>>◌, pure, gets, report}
use mechmind.Obd.Usb.Open.{ensure_open}
use mechmind.Obd.Dtcs.{values, merge_reply, Seen}

-- The error after the last protocol.
pub no_ecu : Option Err → Err
no_ecu none = plain (
    codes "no ECU on the bus (no response) — ignition ON, wait a few seconds after turning the key")
no_ecu (some e) =
    wrap (codes "no ECU on the bus (") e
      (codes ") — ignition ON, wait a few seconds after turning the key")

pub no_info : VehicleInfo
no_info = record { vin = []; ecu = []; proto = [] }

info : Text → Text → VehicleInfo
unfolding trim_space
info vin desc = record { vin = trim_space vin; ecu = codes "ELM327"; proto = trim_space desc }

-- The protocol's name from the adapter, unless that is blank or says that it is automatic.
unfoldable pub protocol_of : Text → Text → Text
unfolding trim_space contains to_upper text_eq
protocol_of desc proto =
    if text_eq (trim_space desc) [] || contains (to_upper desc) (codes "AUTO") then proto else desc

-- A response without an error.
abbrev pub heard : Text × Option Err → Option Text
heard (resp, none) = some resp
heard (resp, some e) = none

abbrev pub dtc_sources : List (Text × DtcStatus)
dtc_sources = (codes "03", confirmed) ∷ (codes "07", pending) ∷ (codes "0A", permanent) ∷ []

module _ (L : Line) (quote : Text → Text) where
  open L use {ctx_err}

  unknown_bus : Text → Err
  unknown_bus resp = plain (codes "no PID 00 (" ++ quote (clip_log resp 40) ++ codes ")")

  -- The loop of `findBus`; `last` is the latest error.
  unfoldable pub try_buses : List (Text × Text) → Option Err → M L (Text × Option Err)
  unfolding unknown_bus
  try_buses [] last = pure ([], some (no_ecu last))
  try_buses ((code, name) ∷ protocols) last = do
    let next : Err → M L (Text × Option Err) = λ e. try_buses protocols (some e)
    c ← gets (λ u. ctx_err u.world)
    or_return c (λ e. ([], some e))
        (do
          report (codes "Trying " ++ name)
          s ← command L caller (codes "ATSP" ++ code)
          on_error s.1 (λ e. do report (name ++ codes ": " ++ e.message); next e)
              (do
                r ← command L caller (codes "0100")
                if pid0100_supported r.0
                    then (do report (codes "ECU answered on " ++ name); pure (name, none))
                    else on_error r.1
                        (λ e. do report (name ++ codes ": " ++ clip_log e.message 80); next e)
                        (do
                          report (name ++ codes ": " ++ (unknown_bus r.0).message)
                          next (unknown_bus r.0))))

  unfoldable pub find_bus : M L (Text × Option Err)
  unfolding try_buses
  find_bus = try_buses elm_bus_protocols none

  unfoldable pub read_vin : M L (Text × Option Err)
  unfolding extract_vin
  read_vin = do
    r ← command L caller (codes "0902")
    or_return r.1 (λ e. ([], some e)) (pure (extract_vin r.0, none))

  -- The end of `Identify`: without a VIN it goes on while the port is open.
  unfoldable pub finish_identify : Text → Text × Option Err → M L (VehicleInfo × Option Err)
  unfolding info
  finish_identify desc (vin, none) = pure (info vin desc, none)
  finish_identify desc (vin, some e) = do
    report (codes "VIN not returned: " ++ e.message)
    held ← gets (λ u. is_some u.port)
    if held then pure (info vin desc, none) else pure (no_info, some e)

  unfoldable pub identify : M L (VehicleInfo × Option Err)
  unfolding find_bus read_vin finish_identify protocol_of
  identify = do
    e ← ensure_open L quote
    or_return e (λ e. (no_info, some e))
        (do
          b ← find_bus
          or_return b.1 (λ e. (no_info, some e))
              (do
                report (codes "Asking ECU for protocol")
                d ← command L caller (codes "ATDP")
                report (codes "Asking ECU for VIN")
                v ← read_vin
                finish_identify (protocol_of d.0 b.0) v))

  module _ (F : Type 0) where
    -- The loop of `ReadDTCs` over its sources.
    unfoldable pub ask_sources : List (Text × DtcStatus) → Seen F → M L (Seen F)
    unfolding merge_reply
    ask_sources [] seen = pure seen
    ask_sources ((cmd, status) ∷ sources) seen = do
      r ← command L caller cmd
      ask_sources sources (merge_reply status (heard r) seen)

    unfoldable pub read_dtcs : M L (Option (List (Dtc F)) × Option Err)
    unfolding ask_sources values
    read_dtcs = do
      e ← ensure_open L quote
      or_return e (λ e. (none, some e))
          (do seen ← ask_sources dtc_sources []; pure (some (values seen), none))

    unfoldable pub read_freeze_frame : Text → M L (Option (FreezeFrame F) × Option Err)
    unfolding trim_space
    read_freeze_frame code = do
      e ← ensure_open L quote
      or_return e (λ e. (none, some e))
          (do
            r ← command L caller (codes "0200")
            or_return r.1 (λ e. (none, some e))
                (pure (
                  some (
                      (codes "code", text code) ∷ (codes "raw_mode02", text (trim_space r.0)) ∷ []),
                  none,
                )))
