-- ===== src/Obd/Usb/Readings/Laws.antt =====
-- The readings keep the driver settled.
use mechmind.Obd.Elm.{elm_bus_protocols, pid0100_supported}
use mechmind.Obd.Dtcs.{Seen}
use mechmind.Obd.Usb.Err.{Err}
use mechmind.Obd.Usb.Command.Laws.{command-Keeps}
use mechmind.Obd.Types.{DtcStatus, LiveSnapshot}
use mechmind.Obd.Usb.State.{Usb}
use mechmind.Base.{Option, none, some, List, [], ◌∷◌}
use mechmind.Base.Float.{Floats}
use mechmind.Text.{Text}
use mechmind.Obd.Usb.Line.{Line}
use mechmind.Obd.Usb.State.Keeps.{
  Keeps-on_error, Keeps-if, Keeps-change_world, Keeps, IsBlind, Keeps-bind, Keeps-gets,
  Keeps-or_return, Keeps-pure,
}
use mechmind.Obd.Usb.Open.Settled.{IsSettled, IsSettled-IsBlind, ensure_open-IsSettled}
use mechmind.Obd.Usb.Readings.{
  dtc_sources, protocol_of, ask_sources, finish_identify, find_bus, read_vin, read_freeze_frame,
  identify, read_dtcs, try_buses,
}
use mechmind.Obd.Usb.Live.{no_samples, live_pids, read_live_snapshot, sample}

module _ {L : Line} (quote : Text → Text) {P : Usb L → Type 0} (b : IsBlind P) where
  try_buses-Keeps :
      (protocols : List (Text × Text)) (last : Option Err)
      → Keeps P (try_buses L quote protocols last)
  unfolding try_buses
  try_buses-Keeps [] last = Keeps-pure _
  try_buses-Keeps ((code, name) ∷ protocols) last = Keeps-bind (Keeps-gets _) λ c.
      Keeps-or_return c _ (
        Keeps-bind (Keeps-change_world _ b) λ x. Keeps-bind (command-Keeps b _ _) λ s.
          Keeps-on_error s.1 _
            (λ e. Keeps-bind (Keeps-change_world _ b) λ y. try_buses-Keeps protocols (some e))
            (Keeps-bind (command-Keeps b _ _) λ r.
              Keeps-if (pid0100_supported r.0)
                (Keeps-bind (Keeps-change_world _ b) λ y. Keeps-pure _)
                (Keeps-on_error r.1 _
                  (λ e. Keeps-bind (Keeps-change_world _ b) λ y. try_buses-Keeps protocols (some e))
                  (Keeps-bind (Keeps-change_world _ b) λ y. try_buses-Keeps protocols _))))

  find_bus-Keeps : Keeps P (find_bus L quote)
  unfolding find_bus
  find_bus-Keeps = try_buses-Keeps elm_bus_protocols none

  finish_identify-Keeps :
      (desc : Text) (v : Text × Option Err) → Keeps P (finish_identify L quote desc v)
  unfolding finish_identify
  finish_identify-Keeps desc (vin, none) = Keeps-pure _
  finish_identify-Keeps desc (vin, some e) =
      Keeps-bind (Keeps-change_world _ b)
        λ x. Keeps-bind (Keeps-gets _) λ held. Keeps-if held (Keeps-pure _) (Keeps-pure _)

  read_vin-Keeps : Keeps P (read_vin L quote)
  unfolding read_vin
  read_vin-Keeps = Keeps-bind (command-Keeps b _ _) λ r. Keeps-or_return r.1 _ (Keeps-pure _)

  ask_sources-Keeps :
      (F : Type 0) (sources : List (Text × DtcStatus)) (seen : Seen F)
      → Keeps P (ask_sources L quote F sources seen)
  unfolding ask_sources
  ask_sources-Keeps F [] seen = Keeps-pure _
  ask_sources-Keeps F ((cmd, status) ∷ sources) seen =
      Keeps-bind (command-Keeps b _ _) λ r. ask_sources-Keeps F sources _

  sample-Keeps :
      (R : Floats) (pids : List (Text × (Text → LiveSnapshot R.F → LiveSnapshot R.F)))
      (snap : LiveSnapshot R.F)
      → Keeps P (sample R L quote pids snap)
  unfolding sample
  sample-Keeps R [] snap = Keeps-pure _
  sample-Keeps R ((cmd, set) ∷ pids) snap =
      Keeps-bind (Keeps-gets _)
        λ c. Keeps-or_return c _ (Keeps-bind (command-Keeps b _ _) λ r. sample-Keeps R pids _)

module _ {L : Line} (quote : Text → Text) where
  b : IsBlind {L = L} IsSettled
  b = IsSettled-IsBlind quote

  pub identify-IsSettled : Keeps {L = L} IsSettled (identify L quote)
  unfolding identify
  identify-IsSettled = Keeps-bind (ensure_open-IsSettled quote) λ e. Keeps-or_return e _ (
      Keeps-bind (find_bus-Keeps quote b) λ f. Keeps-or_return f.1 _ (
        Keeps-bind (Keeps-change_world _ b) λ x. Keeps-bind (command-Keeps b _ _) λ d.
          Keeps-bind (Keeps-change_world _ b) λ y.
            Keeps-bind (read_vin-Keeps quote b)
              λ v. finish_identify-Keeps quote b (protocol_of d.0 f.0) v))

  pub read_dtcs-IsSettled : (F : Type 0) → Keeps {L = L} IsSettled (read_dtcs L quote F)
  unfolding read_dtcs
  read_dtcs-IsSettled F = Keeps-bind (ensure_open-IsSettled quote) λ e.
      Keeps-or_return e _
        (Keeps-bind (ask_sources-Keeps quote b F dtc_sources []) λ seen. Keeps-pure _)

  pub read_freeze_frame-IsSettled :
      (F : Type 0) (code : Text) → Keeps {L = L} IsSettled (read_freeze_frame L quote F code)
  unfolding read_freeze_frame
  read_freeze_frame-IsSettled F code = Keeps-bind (ensure_open-IsSettled quote) λ e.
      Keeps-or_return e _
        (Keeps-bind (command-Keeps b _ _) λ r. Keeps-or_return r.1 _ (Keeps-pure _))

module _ (R : Floats) {L : Line} (quote : Text → Text) where
  pub read_live_snapshot-IsSettled : Keeps {L = L} IsSettled (read_live_snapshot R L quote)
  unfolding read_live_snapshot
  read_live_snapshot-IsSettled = Keeps-bind (ensure_open-IsSettled quote) λ e. Keeps-or_return e _ (
      Keeps-bind (sample-Keeps quote (IsSettled-IsBlind quote) R (live_pids R) (no_samples R))
        λ s. Keeps-pure _)
