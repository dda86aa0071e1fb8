-- ===== src/Obd/Usb/Init/Ready.antt =====
-- The driver is never ready without an open port: the steps of initialisation keep that.
use mechmind.Obd.Usb.State.Triple.{Triple-bind, Triple-pure, Triple-or_return, Triple-after, Triple}
use mechmind.Obd.Elm.{looks_like_elm}
use mechmind.Obd.Usb.Command.Laws.{command-Keeps}
use mechmind.Obd.Usb.Init.Steps.{configure_elm-Keeps, await_port-Keeps, wake-Keeps}
use mechmind.Obd.Usb.Init.Laws.{IsOpen}
use mechmind.Base.Int.{ℤ}
use mechmind.Obd.Usb.Err.{Err}
use mechmind.Obd.Usb.State.{modify, ◌>>=◌, Usb}
use mechmind.Obd.Usb.State.Keeps.{
  Keeps-if, Keeps-modify, Keeps-in_world, Keeps-gets, Keeps-change_world, Keeps-or_return,
  Keeps-bind, Keeps-pure, IsBlind, Keeps,
}
use mechmind.Obd.Usb.Init.{
  open_error, without_port, abandon_port, open_port, identify_again, with_port, set_baud,
  take_opened, set_baud_on, close_async, reopen_after_usb_reset, with_baud, after_wait,
}
use mechmind.Base.{◌+◌, ◌≡◌, refl, true, false, Option, none, some, arith}
use mechmind.Text.{Text}
use mechmind.Obd.Usb.Line.{timed_out, failed, opened, Opened, Line}

-- A driver that is ready has its port.
abbrev pub ReadyOpen : {L : Line} → Usb L → Type 0
ReadyOpen u = u.ready ≡ true → IsOpen u

pub ReadyOpen-IsBlind : {L : Line} → IsBlind {L = L} ReadyOpen
ReadyOpen-IsBlind = record { at = λ u w h. h }

-- Neither ready nor open.
abbrev pub IsShut : {L : Line} → Usb L → Type 0
IsShut u = (u.port ≡ none) × (u.ready ≡ false)

pub IsShut-IsBlind : {L : Line} → IsBlind {L = L} IsShut
IsShut-IsBlind = record { at = λ u w h. h }

-- How an attempt to open the port of a shut driver leaves it.
abbrev pub PortPost : {L : Line} → Option Err → Usb L → Type 0
PortPost none u = IsOpen u
PortPost (some e) u = IsShut u

module _ {L : Line} (quote : Text → Text) where
  b : IsBlind {L = L} ReadyOpen
  b = ReadyOpen-IsBlind

  with_port-ReadyOpen :
      (p : L.Port) (baud : ℤ) (u : Usb L) → ReadyOpen u → ReadyOpen (with_port L quote p baud u)
  unfolding with_port
  with_port-ReadyOpen p baud u h r = refl

  take_opened-ReadyOpen :
      (o : Opened L.Port) (baud : ℤ) → Keeps ReadyOpen (take_opened L quote o baud)
  unfolding take_opened
  take_opened-ReadyOpen (opened p) baud =
      Keeps-bind (Keeps-change_world _ b)
        λ x. Keeps-bind (Keeps-modify _ (with_port-ReadyOpen p baud)) λ y. Keeps-pure _
  take_opened-ReadyOpen (failed e) baud = Keeps-bind (Keeps-gets _) λ path. Keeps-pure _
  take_opened-ReadyOpen timed_out baud =
      Keeps-bind (Keeps-gets _)
        λ path. Keeps-bind (Keeps-gets _) λ c. Keeps-or_return c _ (Keeps-pure _)

  pub open_port-ReadyOpen : (baud : ℤ) → Keeps ReadyOpen (open_port L quote baud)
  unfolding open_port
  open_port-ReadyOpen baud =
      Keeps-bind (Keeps-gets _)
        λ path. Keeps-bind (Keeps-in_world _ b) λ o. take_opened-ReadyOpen o baud

  take_opened-PortPost :
      (o : Opened L.Port) (baud : ℤ) → Triple IsShut (take_opened L quote o baud) PortPost
  unfolding take_opened modify with_port
  take_opened-PortPost (opened p) baud =
      Triple-after (Keeps-change_world _ IsShut-IsBlind)
        λ x. Triple-bind (λ y u. IsOpen u) (record { at = λ u h. refl }) λ y. Triple-pure _ λ u h. h
  take_opened-PortPost (failed e) baud = Triple-after (Keeps-gets _) λ path. Triple-pure _ λ u h. h
  take_opened-PortPost timed_out baud = Triple-after (Keeps-gets _) λ path.
      Triple-after (Keeps-gets _) λ c.
        Triple-or_return c (λ e. some (open_error path e)) (λ x u q h. h)
          λ q. Triple-pure _ λ u h. h

  pub open_port-PortPost : (baud : ℤ) → Triple IsShut (open_port L quote baud) PortPost
  unfolding open_port
  open_port-PortPost baud =
      Triple-after (Keeps-gets _)
        λ path. Triple-after (Keeps-in_world _ IsShut-IsBlind) λ o. take_opened-PortPost o baud

  close_async-Keeps :
      (P : Usb L → Type 0) → IsBlind P → (p : Option L.Port) → Keeps P (close_async L quote p)
  unfolding close_async
  close_async-Keeps P blind none = Keeps-pure _
  close_async-Keeps P blind (some p) = Keeps-change_world _ blind

  -- Whatever the driver's state, it is shut after `abandonPort`.
  pub abandon_port-IsShut : (u : Usb L) → IsShut (abandon_port L quote u).1
  unfolding abandon_port ◌>>=◌
  abandon_port-IsShut u =
      (close_async-Keeps IsShut IsShut-IsBlind u.port).at (without_port L quote u) (refl, refl)

  pub abandon_port-ReadyOpen : Keeps ReadyOpen (abandon_port L quote)
  abandon_port-ReadyOpen = record { at = λ u h. λ r. ground (arith, abandon_port-IsShut u) }

  with_baud-ReadyOpen : (baud : ℤ) (u : Usb L) → ReadyOpen u → ReadyOpen (with_baud L quote baud u)
  unfolding with_baud
  with_baud-ReadyOpen baud u h = h

  set_baud_on-ReadyOpen :
      (p : Option L.Port) (baud : ℤ) → Keeps ReadyOpen (set_baud_on L quote p baud)
  unfolding set_baud_on
  set_baud_on-ReadyOpen none baud = Keeps-pure _
  set_baud_on-ReadyOpen (some p) baud = Keeps-bind (Keeps-in_world _ b) λ e. Keeps-or_return e _ (
      Keeps-bind (Keeps-modify _ (with_baud-ReadyOpen baud)) λ x.
        Keeps-bind (Keeps-change_world _ b)
          λ y. Keeps-bind (Keeps-change_world _ b) λ z. Keeps-pure _)

  pub set_baud-ReadyOpen : (baud : ℤ) → Keeps ReadyOpen (set_baud L quote baud)
  unfolding set_baud
  set_baud-ReadyOpen baud = Keeps-bind (Keeps-gets _) λ p. set_baud_on-ReadyOpen p baud

  identify_again-ReadyOpen : Keeps ReadyOpen (identify_again L quote)
  unfolding identify_again
  identify_again-ReadyOpen = Keeps-bind (wake-Keeps quote b) λ e. Keeps-or_return e _ (
      Keeps-bind (Keeps-change_world _ b) λ x. Keeps-bind (command-Keeps b _ _) λ r.
        Keeps-or_return r.1 _ (
          Keeps-if (looks_like_elm r.0)
            (Keeps-bind (Keeps-change_world _ b) λ y. configure_elm-Keeps quote b) (Keeps-pure _)))

  after_wait-ReadyOpen :
      (w : Option (Option Err)) (baud : ℤ) → Keeps ReadyOpen (after_wait L quote w baud)
  unfolding after_wait
  after_wait-ReadyOpen none baud = Keeps-pure _
  after_wait-ReadyOpen (some (some e)) baud = Keeps-pure _
  after_wait-ReadyOpen (some none) baud =
      Keeps-bind (open_port-ReadyOpen baud) λ e. Keeps-or_return e _ identify_again-ReadyOpen

  pub reopen_after_usb_reset-ReadyOpen : Keeps ReadyOpen (reopen_after_usb_reset L quote)
  unfolding reopen_after_usb_reset
  reopen_after_usb_reset-ReadyOpen = Keeps-bind (Keeps-gets _) λ baud.
      Keeps-bind abandon_port-ReadyOpen λ x. Keeps-bind (Keeps-change_world _ b) λ y.
        Keeps-bind (Keeps-gets _) λ start.
          Keeps-bind (await_port-Keeps quote b 32 (start + 3000)) λ w. after_wait-ReadyOpen w baud
