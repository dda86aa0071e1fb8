-- ===== src/Obd/Usb/Init/Laws.antt =====
-- What the steps of initialisation leave of the port: success means that it is open.
use mechmind.Obd.Usb.Command.Laws.{command-Keeps, command_closed}
use mechmind.Obd.Usb.Err.{Err}
use mechmind.Obd.Usb.Command.{command}
use mechmind.Obd.Usb.State.Keeps.{Keeps, IsBlind}
use mechmind.Obd.Usb.State.{or_return, M, ◌>>=◌, Usb, on_stuck, pure}
use mechmind.Base.{
  Option-cases, is_some, ◌≡◌, refl, inl, inr, Bool, true, false, Option, none, some, arith,
  if◌then◌else◌,
}
use mechmind.Text.{Text}
use mechmind.Obd.Usb.Line.{Context, Line}

abbrev pub IsOpen : {L : Line} → Usb L → Type 0
IsOpen u = is_some u.port ≡ true

-- A method that reports no error leaves the port open.
pub record Opens {L : Line} (m : M L (Option Err)) : Type 0 where
  pub at : (u : Usb L) → (m u).0 ≡ none → IsOpen (m u).1

pub IsOpen-IsBlind : {L : Line} → IsBlind {L = L} IsOpen
IsOpen-IsBlind = record { at = λ u w h. h }

pub no_some : {A B : Type 0} {a : A} → some a ≡ none → B
no_some e = cc

module _ {L : Line} where
  pub Opens-fail : (e : Err) → Opens {L = L} (pure (some e))
  unfolding pure
  Opens-fail e = record { at = λ u h. cc }

  pub Opens-bind :
      {A : Type 0} (m : M L A) (f : A → M L (Option Err))
      → ((a : A) → Opens (f a))
      → Opens (m >>= f)
  unfolding ◌>>=◌
  Opens-bind m f h = record { at = λ u e. let (a, u') = m u in (h a).at u' e }

  pub Opens-or_return :
      (e : Option Err) (f : Err → Err) {k : M L (Option Err)}
      → Opens k
      → Opens (or_return e (λ x. some (f x)) k)
  unfolding or_return
  Opens-or_return none f h = record { at = λ u e. h.at u e }
  Opens-or_return (some x) f h = record { at = λ u e. cc }

  pub Opens-on_stuck : (e : Option Err) {k : M L (Option Err)} → Opens k → Opens (on_stuck e some k)
  unfolding on_stuck
  Opens-on_stuck none h = record { at = λ u e. h.at u e }
  Opens-on_stuck (some x) {k} h = record { at = λ u e. ground (arith, h.at u) }

  pub Opens-if :
      (c : Bool) {m n : M L (Option Err)} → Opens m → Opens n → Opens (if c then m else n)
  Opens-if true hm hn = hm
  Opens-if false hm hn = hn

  -- A command without an error means that the port is open.
  pub command_opens :
      (ctx : Context) (cmd : Text) (u : Usb L)
      → (command L ctx cmd u).0.1 ≡ none
      → IsOpen (command L ctx cmd u).1
  command_opens ctx cmd u h = elim (Option-cases u.port) [
    | inl shut ↦ no_some (rw (command_closed ctx cmd u shut) at h)
    | inr (p, held) ↦ (command-Keeps IsOpen-IsBlind ctx cmd).at u (rw held refl)
  ]

  after_command :
      (e : Option Err) (f : Err → Err) {k : M L (Option Err)} (u : Usb L)
      → Keeps IsOpen k
      → (e ≡ none → IsOpen u)
      → (or_return e (λ x. some (f x)) k u).0 ≡ none
      → IsOpen (or_return e (λ x. some (f x)) k u).1
  unfolding or_return
  after_command none f u keep h e = keep.at u (h refl)
  after_command (some x) f u keep h e = cc

  -- What follows a command that had no error keeps the port open.
  pub Opens-command :
      (ctx : Context) (cmd : Text) (f : Err → Err) {k : M L (Option Err)}
      → Keeps IsOpen k
      → Opens (command L ctx cmd >>= λ r. or_return r.1 (λ x. some (f x)) k)
  unfolding ◌>>=◌
  Opens-command ctx cmd f keep = record {
    at = λ u e.
        after_command (command L ctx cmd u).0.1 f (command L ctx cmd u).1 keep
          (command_opens ctx cmd u) e;
  }
