-- ===== src/Obd/Usb/Init/Steps.antt =====
-- The steps of initialisation: those that leave the driver's fields alone, and those whose success
-- means that the port is open.
use mechmind.Obd.Usb.Init.Laws.{
  IsOpen-IsBlind, Opens-if, Opens-command, Opens-or_return, Opens-fail, Opens-bind, Opens,
}
use mechmind.Obd.Usb.Command.Laws.{command-Keeps}
use mechmind.Obd.Usb.Err.{Err}
use mechmind.Obd.Elm.{looks_like_elm}
use mechmind.Base.Int.{ℤ}
use mechmind.Obd.Usb.State.Keeps.{
  Keeps-if, Keeps-or_return, Keeps-in_world, Keeps-gets, Keeps-change_world, Keeps-bind, Keeps-pure,
  Keeps, IsBlind,
}
use mechmind.Obd.Usb.State.{◌>>=◌, Usb}
use mechmind.Obd.Usb.Init.{
  configure_commands, wake_on, await_port, wake, raise_modem_lines, raise_on,
  reopen_after_usb_reset, configure_elm, open_port, configure_from, identify_again, after_wait,
  take_opened,
}
use mechmind.Base.{ℕ, zero, suc, refl, Option, none, some, List, [], ◌∷◌, arith}
use mechmind.Text.{codes, Text}
use mechmind.Obd.Usb.Line.{timed_out, failed, opened, Opened, Line}

module _ {L : Line} (quote : Text → Text) {P : Usb L → Type 0} (b : IsBlind P) where
  wake_on-Keeps : (p : Option L.Port) → Keeps P (wake_on L quote p)
  unfolding wake_on
  wake_on-Keeps none = Keeps-pure _
  wake_on-Keeps (some p) = Keeps-bind (Keeps-in_world _ b) λ x.
      Keeps-bind (Keeps-in_world _ b)
        λ e. Keeps-or_return e _ (Keeps-bind (Keeps-change_world _ b) λ y. Keeps-pure _)

  pub wake-Keeps : Keeps P (wake L quote)
  unfolding wake
  wake-Keeps = Keeps-bind (Keeps-gets _) λ p. wake_on-Keeps p

  raise_on-Keeps : (p : Option L.Port) → Keeps P (raise_on L quote p)
  unfolding raise_on
  raise_on-Keeps none = Keeps-pure _
  raise_on-Keeps (some p) = Keeps-bind (Keeps-change_world _ b) λ x. Keeps-change_world _ b

  pub raise_modem_lines-Keeps : Keeps P (raise_modem_lines L quote)
  unfolding raise_modem_lines
  raise_modem_lines-Keeps = Keeps-bind (Keeps-gets _) λ p. raise_on-Keeps p

  configure_from-Keeps : (cs : List Text) → Keeps P (configure_from L quote cs)
  unfolding configure_from
  configure_from-Keeps [] = Keeps-bind (command-Keeps b _ _) λ r. Keeps-pure _
  configure_from-Keeps (c ∷ cs) = Keeps-bind (Keeps-gets _) λ e. Keeps-or_return e _ (
      Keeps-bind (Keeps-change_world _ b)
        λ x. Keeps-bind (command-Keeps b _ _) λ r. Keeps-or_return r.1 _ (configure_from-Keeps cs))

  pub configure_elm-Keeps : Keeps P (configure_elm L quote)
  unfolding configure_elm
  configure_elm-Keeps = configure_from-Keeps configure_commands

  pub await_port-Keeps : (fuel deadline : ℕ) → Keeps P (await_port L quote fuel deadline)
  unfolding await_port
  await_port-Keeps zero deadline = Keeps-pure _
  await_port-Keeps (suc fuel) deadline = Keeps-bind (Keeps-gets _) λ c. Keeps-or_return c _ (
      Keeps-bind (Keeps-gets _) λ here. Keeps-bind (Keeps-gets _) λ late.
        Keeps-bind (Keeps-gets _) λ path. Keeps-if here (Keeps-pure _) (
          Keeps-if late (Keeps-pure _) (
            Keeps-bind (Keeps-in_world _ b)
              λ e. Keeps-or_return e _ (await_port-Keeps fuel deadline))))

module _ {L : Line} (quote : Text → Text) where
  take_opened-Opens : (o : Opened L.Port) (baud : ℤ) → Opens (take_opened L quote o baud)
  unfolding take_opened ◌>>=◌
  take_opened-Opens (opened p) baud = record { at = λ u e. refl }
  take_opened-Opens (failed x) baud = record { at = λ u e. cc }
  take_opened-Opens timed_out baud = record { at = λ u e. ground arith }

  pub open_port-Opens : (baud : ℤ) → Opens (open_port L quote baud)
  unfolding open_port
  open_port-Opens baud = Opens-bind _ _ λ path. Opens-bind _ _ λ o. take_opened-Opens o baud

  configure_from-Opens : (c : Text) (cs : List Text) → Opens (configure_from L quote (c ∷ cs))
  unfolding configure_from
  configure_from-Opens c cs = Opens-bind _ _ λ e.
      Opens-or_return e _
        (Opens-bind _ _ λ x. Opens-command _ _ _ (configure_from-Keeps quote IsOpen-IsBlind cs))

  pub configure_elm-Opens : Opens (configure_elm L quote)
  unfolding configure_elm
  configure_elm-Opens =
      configure_from-Opens (codes "ATE0")
        (codes "ATL0" ∷ codes "ATS0" ∷ codes "ATH0" ∷ codes "ATAL" ∷ [])

  identify_again-Opens : Opens (identify_again L quote)
  unfolding identify_again
  identify_again-Opens = Opens-bind _ _ λ e. Opens-or_return e _ (
      Opens-bind _ _ λ x. Opens-bind _ _ λ r.
        Opens-or_return r.1 _
          (Opens-if (looks_like_elm r.0) (Opens-bind _ _ λ y. configure_elm-Opens) (Opens-fail _)))

  after_wait-Opens : (w : Option (Option Err)) (baud : ℤ) → Opens (after_wait L quote w baud)
  unfolding after_wait
  after_wait-Opens none baud = Opens-fail _
  after_wait-Opens (some (some e)) baud = Opens-fail _
  after_wait-Opens (some none) baud = Opens-bind _ _ λ e. Opens-or_return e _ identify_again-Opens

  pub reopen_after_usb_reset-Opens : Opens (reopen_after_usb_reset L quote)
  unfolding reopen_after_usb_reset
  reopen_after_usb_reset-Opens = Opens-bind _ _ λ baud.
      Opens-bind _ _
        λ x. Opens-bind _ _ λ y. Opens-bind _ _ λ start. Opens-bind _ _ λ w. after_wait-Opens w baud
