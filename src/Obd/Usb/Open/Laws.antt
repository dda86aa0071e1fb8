-- ===== src/Obd/Usb/Open/Laws.antt =====
-- `Open` leaves the adapter open and ready, or shut.
use mechmind.Obd.Detect.{is_j2534, SerialPort}
use mechmind.Obd.Usb.Banner.Laws.{init_elm-Opens}
use mechmind.Obd.Usb.Banner.{init_elm}
use mechmind.Base.Int.{ℤ}
use mechmind.Obd.Usb.Init.Ready.{
  ReadyOpen, open_port-PortPost, PortPost, IsShut-IsBlind, IsShut, abandon_port-IsShut,
}
use mechmind.Obd.Usb.State.Keeps.{Keeps-pure, Keeps-if, Keeps-change_world, Keeps-gets, Keeps}
use mechmind.Obd.Usb.Init.Laws.{no_some, IsOpen}
use mechmind.Obd.Usb.Err.{Err}
use mechmind.Obd.Usb.Open.{
  park_on, ensure_open, close_adapter, ensure_closed, finish_open, open_adapter, open_device,
  open_closed, announce, open_rates, ready, exhausted, stopped, try_from, stop_with, now_ready,
  Tried,
}
use mechmind.Obd.Usb.State.Triple.{
  Triple-or_return, Triple-if, Triple-bind, Triple-on_error, Triple-after, Triple-pure, Triple,
}
use mechmind.Obd.Usb.State.{report, pure, modify, ◌>>=◌, Usb, M}
use mechmind.Base.{
  is_some, Bool-cases, ℕ, suc, ◌≡◌, refl, inl, inr, true, false, Option, none, some, List, [], ◌∷◌,
  arith,
}
use mechmind.Text.{text_eq, Text}
use mechmind.Obd.Usb.Line.{Line}

abbrev pub IsReady : {L : Line} → Usb L → Type 0
IsReady u = IsOpen u × (u.ready ≡ true)

abbrev Anything : {L : Line} → Usb L → Type 0
Anything u = Unit

-- How the loop over the rates leaves the adapter.
abbrev TriedPost : {L : Line} → Tried → Usb L → Type 0
TriedPost ready u = IsReady u
TriedPost (stopped e) u = IsShut u
TriedPost (exhausted last) u = Unit

-- How `Open` leaves it: ready without an error, and shut with one.
abbrev pub OpenPost : {L : Line} → Option Err → Usb L → Type 0
OpenPost none u = IsReady u
OpenPost (some e) u = IsShut u

Keeps-Anything : {L : Line} {A : Type 0} (m : M L A) → Keeps Anything m
Keeps-Anything m = record { at = λ u h. tt }

module _ {L : Line} (quote : Text → Text) where
  stop_with-Post : (e reason : Err) → Triple Anything (stop_with L quote e reason) TriedPost
  unfolding stop_with ◌>>=◌
  stop_with-Post e reason = record { at = λ u h. abandon_port-IsShut quote u }

  now_ready-IsReady : (u : Usb L) → IsOpen u → IsReady (now_ready L quote u)
  unfolding now_ready
  now_ready-IsReady u h = (h, refl)

  -- What `init_elm` tells by its result.
  abbrev InitPost : Option Err → Usb L → Type 0
  InitPost e u = e ≡ none → IsOpen u

  init_elm-Post : Triple Anything (init_elm L quote) InitPost
  init_elm-Post = record { at = λ u h e. (init_elm-Opens quote).at u e }

  finish_ready : Triple {L = L} IsOpen (modify (now_ready L quote) >>= λ x. pure ready) TriedPost
  unfolding ◌>>=◌
  finish_ready = record { at = λ u h. now_ready-IsReady u h }

  weaken :
      {A : Type 0} {P : Usb L → Type 0} {Q : A → Usb L → Type 0} {m : M L A}
      → Triple Anything m Q
      → Triple P m Q
  weaken t = record { at = λ u h. t.at u tt }

  assume :
      {A : Type 0} {P P' : Usb L → Type 0} {Q : A → Usb L → Type 0} {m : M L A}
      → ((u : Usb L) → P u → P' u)
      → Triple P' m Q
      → Triple P m Q
  assume f t = record { at = λ u h. t.at u (f u h) }

  Keeps-report : (r : Option Err) (msg : Text) → Keeps (InitPost r) (report msg)
  Keeps-report r msg = Keeps-change_world _ (record { at = λ u w h. h })

  try_from-Post :
      (total i : ℕ) (bauds : List ℤ) (last : Option Err)
      → Triple Anything (try_from L quote total i bauds last) TriedPost
  unfolding try_from
  try_from-Post total i [] last = Triple-pure _ λ u h. tt
  try_from-Post total i (baud ∷ bauds) last = Triple-after (Keeps-Anything _) λ c.
      Triple-on_error c _ (λ e. stop_with-Post e e)
        λ n. Triple-after (Keeps-Anything _) λ s.
          Triple-on_error s _
            (λ e. Triple-after (Keeps-Anything _) λ x. try_from-Post total (suc i) bauds (some e))
            λ n. Triple-bind InitPost init_elm-Post λ r. Triple-after (Keeps-gets _) λ path.
              Triple-on_error r _
                (λ e. Triple-after (Keeps-report r _) λ x.
                  Triple-if e.is_stuck (weaken (stop_with-Post e _))
                    (weaken (try_from-Post total (suc i) bauds (some e))))
                λ done. assume (λ u h. h done) finish_ready

  finish_open-OpenPost :
      (p : SerialPort) (t : Tried) → Triple (TriedPost t) (finish_open L quote p t) OpenPost
  unfolding finish_open ◌>>=◌
  finish_open-OpenPost p ready = Triple-pure _ λ u h. h
  finish_open-OpenPost p (stopped e) = Triple-pure _ λ u h. h
  finish_open-OpenPost p (exhausted last) = record { at = λ u h. abandon_port-IsShut quote u }

  open_rates-OpenPost :
      (p : SerialPort) (bauds : List ℤ) → Triple IsShut (open_rates L quote p bauds) OpenPost
  unfolding open_rates
  open_rates-OpenPost p bauds = Triple-bind PortPost (open_port-PortPost quote _) λ e.
      Triple-or_return e _ (λ x u q h. rw q at h)
        λ q. weaken (
          Triple-after (Keeps-Anything _)
            λ x. Triple-bind TriedPost (try_from-Post _ _ _ _) λ t. finish_open-OpenPost p t)

  announce-Keeps : (p : SerialPort) → Keeps {L = L} IsShut (announce L quote p)
  unfolding announce
  announce-Keeps p =
      Keeps-if (text_eq p.vid []) (Keeps-pure _) (Keeps-change_world _ IsShut-IsBlind)

  open_device-OpenPost : (path : Text) → Triple IsShut (open_device L quote path) OpenPost
  unfolding open_device
  open_device-OpenPost path = Triple-after (Keeps-gets _) λ p.
      Triple-if (is_j2534 p.kind) (Triple-pure _ λ u h. h) (
        Triple-after (announce-Keeps p) λ x. Triple-after (Keeps-gets _) λ bauds.
          Triple-after (Keeps-change_world _ IsShut-IsBlind) λ y. open_rates-OpenPost p bauds)

  open_closed-OpenPost :
      (p : Option L.Port) → p ≡ none → Triple IsShut (open_closed L quote p) OpenPost
  unfolding open_closed
  open_closed-OpenPost none q =
      Triple-after (Keeps-gets _)
        λ path. Triple-if (text_eq path []) (Triple-pure _ λ u h. h) (open_device-OpenPost path)
  open_closed-OpenPost (some p) q = no_some q

  -- From a shut driver, `Open` ends without an error and then the port is open and the driver
  -- ready, or it ends with an error and the driver is shut, whatever the line does.
  pub open_adapter-OpenPost :
      (u : Usb L) → IsShut u → OpenPost (open_adapter L quote u).0 (open_adapter L quote u).1
  unfolding open_adapter ◌>>=◌
  open_adapter-OpenPost u h = (open_closed-OpenPost u.port h.0).at u h

  -- `Close` leaves the driver shut, whatever its state and whatever the line does.
  pub close_adapter-IsShut : (u : Usb L) → IsShut (close_adapter L quote u).1
  unfolding close_adapter ◌>>=◌
  close_adapter-IsShut u = abandon_port-IsShut quote (park_on L quote u.port u).1

  shut_waits : (u : Usb L) → ReadyOpen u → u.port ≡ none → u.ready ≡ false
  shut_waits u h q = elim (Bool-cases u.ready) [
    | inl set ↦ let held : is_some u.port ≡ true = h set in ground (arith, q, held)
    | inr waiting ↦ waiting
  ]

  ensure_closed-open_adapter :
      (p : Option L.Port) (u : Usb L)
      → u.port ≡ p
      → (p ≡ none → u.ready ≡ false)
      → ensure_closed L quote p u ≡ open_adapter L quote u
  unfolding ensure_closed open_adapter open_closed ◌>>=◌
  ensure_closed-open_adapter none u q h = rw (h refl) refl
  ensure_closed-open_adapter (some p) u q h = rw q refl

  -- Where the driver is never ready without its port, `ensureOpen` does just what `Open` does: the
  -- branch that only reopens the port is not taken.
  pub ensure_open-open_adapter :
      (u : Usb L) → ReadyOpen u → ensure_open L quote u ≡ open_adapter L quote u
  unfolding ensure_open ◌>>=◌
  ensure_open-open_adapter u h = ensure_closed-open_adapter u.port u refl λ q. shut_waits u h q
