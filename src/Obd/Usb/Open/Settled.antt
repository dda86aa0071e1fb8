-- ===== src/Obd/Usb/Open/Settled.antt =====
-- Between calls the driver is ready with its port, or shut: Open and ensureOpen keep that
-- (pkg/obd/usb.go).
use mechmind.Obd.Usb.State.Keeps.{IsBlind, Keeps}
use mechmind.Obd.Usb.Init.Ready.{ReadyOpen, IsShut}
use mechmind.Obd.Usb.Err.{Err}
use mechmind.Obd.Usb.Open.{open_closed, ensure_open, open_adapter}
use mechmind.Obd.Usb.State.{◌>>=◌, Usb}
use mechmind.Obd.Usb.Open.Laws.{ensure_open-open_adapter, OpenPost, IsReady, open_adapter-OpenPost}
use mechmind.Base.{is_some, ◌≡◌, refl, ◌⊎◌, inl, inr, true, false, Option, none, some, arith}
use mechmind.Text.{Text}
use mechmind.Obd.Usb.Line.{Line}

-- Between calls the driver is ready exactly where its port is open.
abbrev pub IsSettled : {L : Line} → Usb L → Type 0
IsSettled u = IsReady u ⊎ IsShut u

no_true : {A : Type 0} → false ≡ true → A
no_true e = ground (arith, e)

module _ {L : Line} (quote : Text → Text) where
  IsSettled-post : (e : Option Err) (u : Usb L) → OpenPost e u → IsSettled u
  IsSettled-post none u h = inl h
  IsSettled-post (some e) u h = inr h

  open_closed_held :
      (p : Option L.Port) (u : Usb L) → is_some p ≡ true → (open_closed L quote p u).1 ≡ u
  unfolding open_closed ◌>>=◌
  open_closed_held none u h = ground (arith, h)
  open_closed_held (some p) u h = refl

  pub open_adapter-IsSettled : (u : Usb L) → IsSettled u → IsSettled (open_adapter L quote u).1
  unfolding open_adapter ◌>>=◌
  open_adapter-IsSettled u (inl h) = rw (open_closed_held u.port u h.0) (inl h)
  open_adapter-IsSettled u (inr h) = IsSettled-post _ _ (open_adapter-OpenPost quote u h)

  pub IsSettled-ReadyOpen : (u : Usb L) → IsSettled u → ReadyOpen u
  IsSettled-ReadyOpen u (inl h) r = h.0
  IsSettled-ReadyOpen u (inr h) r = no_true (rw h.1 at r)

  pub ensure_open-IsSettled : Keeps IsSettled (ensure_open L quote)
  ensure_open-IsSettled = record {
    at = λ u h.
        rw (ensure_open-open_adapter quote u (IsSettled-ReadyOpen u h))
          (open_adapter-IsSettled u h);
  }

  pub IsSettled-IsBlind : IsBlind {L = L} IsSettled
  IsSettled-IsBlind = record { at = λ u w h. h }
