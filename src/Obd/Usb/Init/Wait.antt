-- ===== src/Obd/Usb/Init/Wait.antt =====
-- The wait for the port to come back (pkg/obd/usb.go: reopenAfterUSBReset) ends: the fuel is
-- enough.
use mechmind.Obd.Usb.Err.{Err}
use mechmind.Obd.Usb.Init.{await_port}
use mechmind.Base.{
  Bool-cases, Option-cases, is_some, ℕ, zero, suc, ◌+◌, ◌*◌, ◌<◌, ◌≡◌, refl, inl, inr, Bool, true,
  false, Option, none, some, arith, ltb,
}
use mechmind.Text.{Text}
use mechmind.Obd.Usb.Line.{Line}
use mechmind.Obd.Usb.State.{◌>>=◌, or_return, Usb}

module _ {L : Line} (quote : Text → Text) where
  open L use {now, sleep, ctx_err, present}

  awaited : ℕ → ℕ → Usb L → Bool
  awaited fuel deadline u = is_some (await_port L quote fuel deadline u).0

  slept_or_stopped :
      (e : Option Err) (fuel deadline : ℕ) (u : Usb L)
      → (e ≡ none → awaited fuel deadline u ≡ true)
      → is_some (or_return e (λ e. some (some e)) (await_port L quote fuel deadline) u).0 ≡ true
  unfolding or_return awaited
  slept_or_stopped none fuel deadline u h = h refl
  slept_or_stopped (some e) fuel deadline u h = refl

  turn :
      (fuel deadline : ℕ) (u : Usb L)
      → (ltb deadline (now u.world) ≡ false
          → (sleep 100 u.world).0 ≡ none
          → awaited fuel deadline (record u { world = (sleep 100 u.world).1 }) ≡ true)
      → awaited (suc fuel) deadline u ≡ true
  unfolding awaited await_port ◌>>=◌
  turn fuel deadline u h = elim (Option-cases (ctx_err u.world)) [
    | inr (e, c) ↦ rw c refl
    | inl c ↦ rw c (elim (Bool-cases (present u.device_path u.world)) [
      | inl here ↦ rw here refl
      | inr gone ↦ rw gone (elim (Bool-cases (ltb deadline (now u.world))) [
        | inl late ↦ rw late refl
        | inr early ↦ rw early (slept_or_stopped (sleep 100 u.world).0 fuel deadline _ (h early))
      ])
    ])
  ]

  -- Each turn sleeps for 100 ms or ends the wait, so a turn more than the time until the deadline
  -- holds is enough.
  pub await_port-enough :
      (fuel deadline : ℕ) (u : Usb L)
      → deadline < now u.world + 100 * fuel
      → is_some (await_port L quote (suc fuel) deadline u).0 ≡ true
  unfolding awaited
  await_port-enough zero deadline u h = turn zero deadline u λ early. absurd (ground (arith, early))
  await_port-enough (suc fuel) deadline u h = turn (suc fuel) deadline u λ early slept.
      await_port-enough fuel deadline _ (omega (arith, L.sleep-now 100 u.world slept))

  -- The fuel of `reopenAfterUSBReset` is enough for its three seconds: the wait ends with the port
  -- back or with an error, whatever the clock, the sleeps and the device do.
  pub await_port-three_seconds :
      (u : Usb L) → is_some (await_port L quote 32 (now u.world + 3000) u).0 ≡ true
  await_port-three_seconds u = await_port-enough 31 (now u.world + 3000) u (omega arith)
