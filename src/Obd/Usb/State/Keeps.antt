-- ===== src/Obd/Usb/State/Keeps.antt =====
-- Invariants of methods: one rule for each way to build a method.
use mechmind.Base.{inr, inl, Bool-cases, Option, none, some, Bool, true, false, if◌then◌else◌}
use mechmind.Obd.Usb.Err.{Err}
use mechmind.Obd.Usb.Line.{Line}
use mechmind.Obd.Usb.State.{
  on_stuck, on_error, Usb, M, pure, gets, in_world, or_return, change_world, modify, ◌>>=◌,
}

-- `m` keeps `P`, whatever it returns.
pub record Keeps {L : Line} {A : Type 0} (P : Usb L → Type 0) (m : M L A) : Type 0 where
  pub at : (u : Usb L) → P u → P (m u).1

-- `P` looks at the driver's own fields alone.
pub record IsBlind {L : Line} (P : Usb L → Type 0) : Type 0 where
  pub at : (u : Usb L) (w : L.World) → P u → P (record u { world = w })

module _ {L : Line} {A : Type 0} {P : Usb L → Type 0} where
  pub Keeps-pure : (a : A) → Keeps P (pure a)
  unfolding pure
  Keeps-pure a = record { at = λ u h. h }

  pub Keeps-gets : (f : Usb L → A) → Keeps P (gets f)
  unfolding gets
  Keeps-gets f = record { at = λ u h. h }

  pub Keeps-in_world : (f : L.World → A × L.World) → IsBlind P → Keeps P (in_world f)
  unfolding in_world
  Keeps-in_world f b = record { at = λ u h. b.at u (f u.world).1 h }

  pub Keeps-or_return :
      (e : Option Err) (f : Err → A) {k : M L A} → Keeps P k → Keeps P (or_return e f k)
  unfolding or_return
  Keeps-or_return none f kk = record { at = λ u h. kk.at u h }
  Keeps-or_return (some e) f kk = record { at = λ u h. h }

  pub Keeps-on_error :
      (e : Option Err) (f : Err → M L A) {k : M L A}
      → ((x : Err) → Keeps P (f x))
      → Keeps P k
      → Keeps P (on_error e f k)
  unfolding on_error
  Keeps-on_error none f kf kk = record { at = λ u h. kk.at u h }
  Keeps-on_error (some e) f kf kk = record { at = λ u h. (kf e).at u h }

  pub Keeps-on_stuck :
      (e : Option Err) (f : Err → A) {k : M L A} → Keeps P k → Keeps P (on_stuck e f k)
  unfolding on_stuck
  Keeps-on_stuck none f kk = record { at = λ u h. kk.at u h }
  Keeps-on_stuck (some e) f kk = record {
    at = λ u h. elim (Bool-cases e.is_stuck) [
      | inl stuck ↦ rw stuck h
      | inr moving ↦ rw moving (kk.at u h)
    ];
  }

  pub Keeps-if : (c : Bool) {m n : M L A} → Keeps P m → Keeps P n → Keeps P (if c then m else n)
  Keeps-if true km kn = km
  Keeps-if false km kn = kn

module _ {L : Line} {P : Usb L → Type 0} where
  pub Keeps-change_world : (f : L.World → L.World) → IsBlind P → Keeps P (change_world f)
  unfolding change_world
  Keeps-change_world f b = record { at = λ u h. b.at u (f u.world) h }

module _ {L : Line} {A B : Type 0} {P : Usb L → Type 0} where
  pub Keeps-bind :
      {m : M L A} {f : A → M L B} → Keeps P m → ((a : A) → Keeps P (f a)) → Keeps P (m >>= f)
  unfolding ◌>>=◌
  Keeps-bind {m} {f} km kf = record { at = λ u h. let (a, u') = m u in (kf a).at u' (km.at u h) }

module _ {L : Line} {P : Usb L → Type 0} where
  pub Keeps-modify : (f : Usb L → Usb L) → ((u : Usb L) → P u → P (f u)) → Keeps P (modify f)
  unfolding modify
  Keeps-modify f h = record { at = h }
