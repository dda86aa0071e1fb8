-- ===== src/Obd/Scan/Counts.antt =====
-- What a pass that ends without an error reports (pkg/obd/types.go: Scan).
use mechmind.Obd.Usb.Err.{Err}
use mechmind.Base.{
  Option-cases, Bool-cases, ◌+◌, ◌≤◌, ◌≡◌, refl, inl, inr, Option, none, some, List, [], ◌∷◌, ◌++◌,
  map, arith, length,
}
use mechmind.Base.Float.{Floats}
use mechmind.Text.{codes, text_eq, Text}
use mechmind.Obd.Types.{FreezeFrame, Dtc}
use mechmind.Obd.Scan.{
  with_frame, with_description, note_frame, Tally, collect_frames, fill_dtc, Adapter,
}

-- Failures are never more than attempts.
abbrev pub IsTally : {F : Type 0} → Tally F → Type 0
IsTally t = t.failures ≤ t.attempts

-- The codes of a list, in order.
abbrev pub codes_in : {F : Type 0} → List (Dtc F) → List Text
codes_in = map (λ d. d.code)

module _ {F : Type 0} where
  note_frame-attempts :
      (code : Text) (r : Option (FreezeFrame F) × Option Err) (t : Tally F)
      → (note_frame code r t).attempts ≡ t.attempts + 1
  unfolding note_frame
  note_frame-attempts code (f, some e) t = refl
  note_frame-attempts code (none, none) t = refl
  note_frame-attempts code (some f, none) t = refl

  note_frame-IsTally :
      (code : Text) (r : Option (FreezeFrame F) × Option Err) (t : Tally F)
      → IsTally t
      → IsTally (note_frame code r t)
  unfolding note_frame
  note_frame-IsTally code (f, some e) t h = omega arith
  note_frame-IsTally code (none, none) t h = omega arith
  note_frame-IsTally code (some f, none) t h = omega arith

  with_description-code : (d : Dtc F) → (with_description d).code ≡ d.code
  unfolding with_description
  with_description-code d = elim (Bool-cases (text_eq d.description [])) [
    | inl blank ↦ rw blank refl
    | inr set ↦ rw set refl
  ]

  with_frame-code :
      (r : Option (FreezeFrame F) × Option Err) (d : Dtc F) → (with_frame r d).code ≡ d.code
  unfolding with_frame
  with_frame-code (f, some e) d = refl
  with_frame-code (none, none) d = refl
  with_frame-code (some f, none) d = refl

  fill_dtc-code :
      (r : Option (FreezeFrame F) × Option Err) (d : Dtc F) → (fill_dtc r d).code ≡ d.code
  unfolding fill_dtc
  fill_dtc-code r d = rw (with_description-code (with_frame r d), with_frame-code r d) refl

module _ (R : Floats) (A : Adapter R.F) where
  -- What the loop over the codes leaves, from the codes and the counters it starts with.
  abbrev pub Collected :
      List (Dtc R.F) → Tally R.F → List (Dtc R.F) × Option Err × Tally R.F → Type 0
  Collected ds t r =
      (codes_in r.0 ≡ codes_in ds)
      × (IsTally t → IsTally r.2)
      × (r.1 ≡ none → r.2.attempts ≡ t.attempts + length ds)

  pub collect_frames-Collected :
      (ds : List (Dtc R.F)) (t : Tally R.F) (s : A.State)
      → Collected ds t (collect_frames R A ds t s).0
  unfolding collect_frames
  collect_frames-Collected [] t s = (refl, λ h. h, λ e. omega arith)
  collect_frames-Collected (d ∷ ds) t s =
      let (r, s1) = A.read_freeze_frame d.code (A.report (codes "Freeze frame for " ++ d.code) s) in
      let t1 = note_frame d.code r t in
      let rest = collect_frames-Collected ds t1 s1 in
      elim (Option-cases (A.ctx_err s)) [
        | inr (e, cancelled) ↦ rw cancelled (refl, λ h. h, λ q. cc)
        | inl going ↦ rw going (
          cc (fill_dtc-code r d, rest.0),
          λ h. rest.1 (note_frame-IsTally d.code r t h),
          λ q. omega (arith, rest.2 q, note_frame-attempts d.code r t),
        )
      ]
