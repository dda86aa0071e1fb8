-- ===== src/Bay/Handlers/Start.antt =====
-- What a scan request does to the jobs.
use mechmind.Bay.Machine.{working}
use mechmind.Bay.Machine.One.{start_job-IsOwner, IsOwner}
use mechmind.Bay.Jobs.{start_job, is_busy}
use mechmind.Http.{gives, answered, fails, refused, Result, Answer}
use mechmind.Bay.Handlers.{build_adapter, ScanRequest, Chosen, start_scan, scan_on, handle_scan}
use mechmind.Bay.Client.{Host}
use mechmind.Base.{Option-cases, Bool-cases, ℕ, ◌≡◌, refl, inl, inr, false, []}
use mechmind.Text.{text_eq}

module _ {F W : Type 0} (H : Host F W) where
  open H use {Doc, bay, put_bay, stamp}

  -- A refusal leaves the world alone; an accepted scan finds a session and no busy job, and owns
  -- the new
  -- current one.
  pub IsStarted : W → Answer (ℕ × Chosen) × W → Type 0
  IsStarted w (refused s e, w1) = w1 ≡ w
  IsStarted w (answered s (i, a), w1) =
      (text_eq (bay w).token [] ≡ false) × (is_busy (bay w) ≡ false) × IsOwner (bay w1) (working i)

  scan_on-IsStarted :
      (a : Result Chosen) (w : W) → text_eq (bay w).token [] ≡ false → IsStarted w (scan_on H a w)
  unfolding scan_on start_scan IsStarted
  scan_on-IsStarted (fails e) w h = refl
  scan_on-IsStarted (gives a) w h = elim (Option-cases (start_job (H.now w) (stamp w) (bay w))) [
    | inl busy ↦ rw busy refl
    | inr ((i, b), made) ↦
        let (free, own) = start_job-IsOwner (H.now w) (stamp w) (bay w) (i, b) made in
        rw (made, H.bay-put_bay b w) (h, free, own)
  ]

  -- A scan request that is refused changes nothing; one that is accepted comes with a session and
  -- with no busy job, and its job is then the current one and busy.
  pub handle_scan-IsStarted : (req : Result ScanRequest) (w : W) → IsStarted w (handle_scan H req w)
  unfolding handle_scan IsStarted
  handle_scan-IsStarted (fails e) w = refl
  handle_scan-IsStarted (gives req) w = elim (Bool-cases (text_eq (bay w).token [])) [
    | inl out ↦ rw out refl
    | inr session ↦ rw session (scan_on-IsStarted (build_adapter H req w) w session)
  ]
