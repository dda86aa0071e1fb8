-- ===== src/Obd/Scan/Release.antt =====
-- A pass gives its adapter back (pkg/obd/types.go: Scan's deferred Close).
use mechmind.Obd.Usb.Err.{Err}
use mechmind.Text.{codes, Text}
use mechmind.Base.{Option-cases, ◌≡◌, inl, inr, some}
use mechmind.Base.Float.{Floats}
use mechmind.Obd.Scan.{Adapter, scan}

module _ (R : Floats) (A : Adapter R.F) (P : A.State → Type 0) where
  -- If a report keeps a property of the adapter's state, a failing open keeps it, and a close
  -- establishes it, then it holds after a pass, however the pass ends.
  pub scan-keeps :
      (s : A.State)
      → ((msg : Text) (s : A.State) → P s → P (A.report msg s))
      → ((s : A.State) (e : Err) → P s → (A.open_up s).0 ≡ some e → P (A.open_up s).1)
      → ((s : A.State) → P (A.close s))
      → P s
      → P (scan R A s).1
  unfolding scan
  scan-keeps s reported failed shut h =
      let before = A.report (codes "Opening adapter") s in
      elim (Option-cases (A.open_up before).0) [
        | inr (e, q) ↦ rw q (failed before e (reported _ s h) q)
        | inl q ↦ rw q (shut _)
      ]
