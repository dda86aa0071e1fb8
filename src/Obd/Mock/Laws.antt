-- ===== src/Obd/Mock/Laws.antt =====
-- A pass over the simulated adapter (pkg/obd/mock.go with pkg/obd/types.go: Scan).
use mechmind.Obd.Usb.Init.Laws.{no_some}
use mechmind.Obd.Usb.Err.{Err}
use mechmind.Base.{◌≡◌, refl, sym, true, false, Option, none, some}
use mechmind.Base.Float.{Floats}
use mechmind.Obd.Usb.Line.{Line}
use mechmind.Obd.Mock.{after_sleep, mock_close, mock_open, Mock, mock_adapter}
use mechmind.Obd.Scan.{by_error, scan}
use mechmind.Obd.Scan.Release.{scan-keeps}

module _ {L : Line} where
  -- The simulated adapter is not open.
  abbrev pub IsClosed : Mock L → Type 0
  IsClosed m = m.opened ≡ false

  after_failure-IsClosed :
      (e : Option Err) (x : Err) (m : Mock L)
      → IsClosed m
      → (by_error {A = Option Err × Mock L} e
          (λ x. (some x, m))
          (none, record m { opened = true })).0
        ≡ some x
      → IsClosed
          (by_error {A = Option Err × Mock L} e
            (λ x. (some x, m))
            (none, record m { opened = true })).1
  after_failure-IsClosed none x m h q = no_some (sym q)
  after_failure-IsClosed (some e) x m h q = h

  failed_open-IsClosed :
      (m : Mock L) (x : Err) → IsClosed m → (mock_open L m).0 ≡ some x → IsClosed (mock_open L m).1
  unfolding mock_open after_sleep
  failed_open-IsClosed m x h q =
      after_failure-IsClosed (L.sleep 20 m.world).0 x (record m { world = (L.sleep 20 m.world).1 })
        h q

  mock_close-IsClosed : (m : Mock L) → IsClosed (mock_close L m)
  unfolding mock_close
  mock_close-IsClosed m = refl

module _ {L : Line} (R : Floats) where
  -- However a pass over a simulated adapter that is not open ends, it is not open afterwards.
  pub scan-IsClosed : (m : Mock L) → IsClosed m → IsClosed (scan R (mock_adapter L R) m).1
  scan-IsClosed m h =
      scan-keeps R (mock_adapter L R) IsClosed m (λ msg m h. h)
        (λ m x h q. failed_open-IsClosed m x h q) (λ m. mock_close-IsClosed m) h
