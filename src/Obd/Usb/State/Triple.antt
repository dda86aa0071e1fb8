-- ===== src/Obd/Usb/State/Triple.antt =====
-- Pre- and postconditions of methods, with a rule for each way to build a method.
use mechmind.Obd.Usb.State.Keeps.{Keeps}
use mechmind.Obd.Usb.Err.{Err}
use mechmind.Obd.Usb.State.{M, or_return, ◌>>=◌, on_error, pure, Usb}
use mechmind.Base.{◌≡◌, refl, Bool, true, false, Option, none, some, if◌then◌else◌}
use mechmind.Obd.Usb.Line.{Line}

-- From a state in `P` the result and the new state are in `Q`.
pub record Triple {L : Line} {A : Type 0} (P : Usb L → Type 0) (m : M L A) (Q : A → Usb L → Type 0)
    : Type 0 where
  pub at : (u : Usb L) → P u → Q (m u).0 (m u).1

module _ {L : Line} {A : Type 0} {P : Usb L → Type 0} {Q : A → Usb L → Type 0} where
  pub Triple-pure : (a : A) → ((u : Usb L) → P u → Q a u) → Triple P (pure a) Q
  unfolding pure
  Triple-pure a h = record { at = h }

  pub Triple-or_return :
      (e : Option Err) (f : Err → A) {k : M L A}
      → ((x : Err) (u : Usb L) → e ≡ some x → P u → Q (f x) u)
      → (e ≡ none → Triple P k Q)
      → Triple P (or_return e f k) Q
  unfolding or_return
  Triple-or_return none f hf hk = record { at = λ u h. (hk refl).at u h }
  Triple-or_return (some x) f hf hk = record { at = λ u h. hf x u refl h }

  pub Triple-on_error :
      (e : Option Err) (f : Err → M L A) {k : M L A}
      → ((x : Err) → Triple P (f x) Q)
      → (e ≡ none → Triple P k Q)
      → Triple P (on_error e f k) Q
  unfolding on_error
  Triple-on_error none f hf hk = record { at = λ u h. (hk refl).at u h }
  Triple-on_error (some x) f hf hk = record { at = λ u h. (hf x).at u h }

  pub Triple-if :
      (c : Bool) {m n : M L A} → Triple P m Q → Triple P n Q → Triple P (if c then m else n) Q
  Triple-if true hm hn = hm
  Triple-if false hm hn = hn

module _ {L : Line} {A B : Type 0} {P : Usb L → Type 0} {Q : B → Usb L → Type 0} where
  pub Triple-bind :
      (R : A → Usb L → Type 0) {m : M L A} {f : A → M L B}
      → Triple P m R
      → ((a : A) → Triple (R a) (f a) Q)
      → Triple P (m >>= f) Q
  unfolding ◌>>=◌
  Triple-bind R {m} {f} hm hf = record { at = λ u h. let (a, u') = m u in (hf a).at u' (hm.at u h) }

  -- A first part that keeps the precondition.
  pub Triple-after :
      {m : M L A} {f : A → M L B} → Keeps P m → ((a : A) → Triple P (f a) Q) → Triple P (m >>= f) Q
  unfolding ◌>>=◌
  Triple-after {m} {f} hm hf = record { at = λ u h. let (a, u') = m u in (hf a).at u' (hm.at u h) }
