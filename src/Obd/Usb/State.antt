-- ===== src/Obd/Usb/State.antt =====
-- The state of a USBAdapter with the outside world, and the state monad of its methods.
pub mod Keeps
pub mod Triple
use mechmind.Base.{if◌then◌else◌, Option, none, some, Bool}
use mechmind.Base.Int.{ℤ}
use mechmind.Text.{Text}
use mechmind.Obd.Usb.Err.{Err}
use mechmind.Obd.Usb.Line.{Line}

pub record Usb (L : Line) : Type 0 where
  pub device_path : Text
  pub baud : ℤ
  pub port : Option L.Port
  pub ready : Bool
  pub world : L.World

-- A method returns its result and the new state.
abbrev pub M : Line → Type 0 → Type 0
M L A = Usb L → A × Usb L

module _ {L : Line} {A : Type 0} where
  unfoldable pub pure : A → M L A
  pure a u = (a, u)

  unfoldable pub gets : (Usb L → A) → M L A
  gets f u = (f u, u)

  -- Does something to the world alone.
  unfoldable pub in_world : (L.World → A × L.World) → M L A
  in_world f u = let (a, w) = f u.world in (a, record u { world = w })

  -- `if err != nil { return f err }`: goes on only where there is no error.
  unfoldable pub or_return : Option Err → (Err → A) → M L A → M L A
  or_return none f k u = k u
  or_return (some e) f k u = (f e, u)

  -- `if err != nil { … }`, whose body ends the method.
  unfoldable pub on_error : Option Err → (Err → M L A) → M L A → M L A
  on_error none f k u = k u
  on_error (some e) f k u = f e u

  -- `if errors.Is(err, errStuckSerial) { return f err }`.
  unfoldable pub on_stuck : Option Err → (Err → A) → M L A → M L A
  on_stuck none f k u = k u
  on_stuck (some e) f k u = if e.is_stuck then (f e, u) else k u

module _ {L : Line} where
  unfoldable pub change_world : (L.World → L.World) → M L (Unit {0})
  change_world f u = (tt, record u { world = f u.world })

  unfoldable pub modify : (Usb L → Usb L) → M L (Unit {0})
  modify f u = (tt, f u)

  abbrev pub report : Text → M L (Unit {0})
  report msg = change_world (L.report msg)

module _ {L : Line} {A B : Type 0} where
  infixl 5 ◌>>=◌ ◌>>◌
  -- Opening this opens the other operations of the monad too.
  unfoldable pub ◌>>=◌ : M L A → (A → M L B) → M L B
  unfolding pure gets in_world or_return on_error on_stuck change_world modify
  ◌>>=◌ m f u = let (a, u') = m u in f a u'

  abbrev pub ◌>>◌ : M L A → M L B → M L B
  m >> k = m >>= λ _. k
