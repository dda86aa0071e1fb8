-- ===== src/Obd/Usb/Banner/Laws.antt =====
-- `initELM` succeeds only with the port open, and is never ready without it.
use mechmind.Obd.Elm.{looks_like_elm}
use mechmind.Obd.Usb.Command.Laws.{command-Keeps}
use mechmind.Obd.Usb.Init.Steps.{
  reopen_after_usb_reset-Opens, wake-Keeps, configure_elm-Keeps, configure_elm-Opens,
}
use mechmind.Obd.Usb.Init.Ready.{reopen_after_usb_reset-ReadyOpen, ReadyOpen-IsBlind, ReadyOpen}
use mechmind.Obd.Usb.Err.{is_port_dead, Err}
use mechmind.Obd.Usb.Init.Laws.{
  Opens-if, Opens-on_stuck, Opens-fail, Opens-or_return, Opens-bind, Opens,
}
use mechmind.Obd.Usb.State.Keeps.{
  Keeps-on_stuck, Keeps-in_world, Keeps-if, Keeps-change_world, Keeps-pure, Keeps-bind,
  Keeps-or_return, Keeps, IsBlind,
}
use mechmind.Obd.Usb.Banner.{
  go, leave, Probe, try_atws, try_atz, ati_from, judge, init_elm, conclude,
}
use mechmind.Base.{ℕ, zero, suc, ◌||◌, Option, none}
use mechmind.Text.{Text}
use mechmind.Obd.Usb.Line.{Line}

module _ {L : Line} (quote : Text → Text) where
  conclude-Opens : (id : Text) (err : Option Err) → Opens (conclude L quote id err)
  unfolding conclude
  conclude-Opens id err = Opens-or_return err _ (Opens-bind _ _ λ x. configure_elm-Opens quote)

  try_atz-Opens : (err werr : Option Err) → Opens (try_atz L quote err werr)
  unfolding try_atz
  try_atz-Opens err werr = Opens-bind _ _ λ x. Opens-bind _ _ λ z. Opens-on_stuck z.1 (
      Opens-if (looks_like_elm z.0) (conclude-Opens z.0 none) (
        Opens-if (is_port_dead z.1 || is_port_dead err || is_port_dead werr)
          (reopen_after_usb_reset-Opens quote) (Opens-fail _)))

  try_atws-Opens : (err : Option Err) → Opens (try_atws L quote err)
  unfolding try_atws
  try_atws-Opens err = Opens-bind _ _ λ x. Opens-bind _ _ λ w.
      Opens-on_stuck w.1
        (Opens-if (looks_like_elm w.0) (conclude-Opens w.0 none) (try_atz-Opens err w.1))

  judge-Opens : (a : Probe) → Opens (judge L quote a)
  unfolding judge
  judge-Opens (leave e) = Opens-fail e
  judge-Opens (go id err) =
      Opens-if (looks_like_elm id) (conclude-Opens id err) (try_atws-Opens err)

  -- If `initELM` reports no error, the port is open.
  pub init_elm-Opens : Opens (init_elm L quote)
  unfolding init_elm
  init_elm-Opens = Opens-bind _ _ λ x. Opens-bind _ _ λ e.
      Opens-or_return e _
        (Opens-bind _ _ λ e. Opens-or_return e _ (Opens-bind _ _ λ a. judge-Opens a))

  b : IsBlind {L = L} ReadyOpen
  b = ReadyOpen-IsBlind

  ati_from-ReadyOpen : (rounds : ℕ) → Keeps ReadyOpen (ati_from L quote rounds)
  unfolding ati_from
  ati_from-ReadyOpen zero =
      Keeps-bind (Keeps-change_world _ b)
        λ x. Keeps-bind (command-Keeps b _ _) λ a. Keeps-on_stuck a.1 _ (Keeps-pure _)
  ati_from-ReadyOpen (suc rounds) = Keeps-bind (Keeps-change_world _ b) λ x.
      Keeps-bind (command-Keeps b _ _) λ a. Keeps-on_stuck a.1 _ (
        Keeps-if (looks_like_elm a.0) (Keeps-pure _) (
          Keeps-bind (Keeps-change_world _ b) λ y. Keeps-bind (Keeps-in_world _ b) λ e.
            Keeps-or_return e _ (Keeps-bind (wake-Keeps quote b) λ z. ati_from-ReadyOpen rounds)))

  conclude-ReadyOpen : (id : Text) (err : Option Err) → Keeps ReadyOpen (conclude L quote id err)
  unfolding conclude
  conclude-ReadyOpen id err =
      Keeps-or_return err _ (Keeps-bind (Keeps-change_world _ b) λ x. configure_elm-Keeps quote b)

  try_atz-ReadyOpen : (err werr : Option Err) → Keeps ReadyOpen (try_atz L quote err werr)
  unfolding try_atz
  try_atz-ReadyOpen err werr = Keeps-bind (Keeps-change_world _ b) λ x.
      Keeps-bind (command-Keeps b _ _) λ z. Keeps-on_stuck z.1 _ (
        Keeps-if (looks_like_elm z.0) (conclude-ReadyOpen z.0 none) (
          Keeps-if (is_port_dead z.1 || is_port_dead err || is_port_dead werr)
            (reopen_after_usb_reset-ReadyOpen quote) (Keeps-pure _)))

  try_atws-ReadyOpen : (err : Option Err) → Keeps ReadyOpen (try_atws L quote err)
  unfolding try_atws
  try_atws-ReadyOpen err = Keeps-bind (Keeps-change_world _ b) λ x.
      Keeps-bind (command-Keeps b _ _) λ w.
        Keeps-on_stuck w.1 _
          (Keeps-if (looks_like_elm w.0) (conclude-ReadyOpen w.0 none) (try_atz-ReadyOpen err w.1))

  judge-ReadyOpen : (a : Probe) → Keeps ReadyOpen (judge L quote a)
  unfolding judge
  judge-ReadyOpen (leave e) = Keeps-pure _
  judge-ReadyOpen (go id err) =
      Keeps-if (looks_like_elm id) (conclude-ReadyOpen id err) (try_atws-ReadyOpen err)

  pub init_elm-ReadyOpen : Keeps ReadyOpen (init_elm L quote)
  unfolding init_elm
  init_elm-ReadyOpen = Keeps-bind (Keeps-change_world _ b) λ x. Keeps-bind (wake-Keeps quote b) λ e.
      Keeps-or_return e _ (
        Keeps-bind (Keeps-in_world _ b)
          λ e. Keeps-or_return e _ (Keeps-bind (ati_from-ReadyOpen 2) λ a. judge-ReadyOpen a))
