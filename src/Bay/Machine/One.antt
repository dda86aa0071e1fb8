-- ===== src/Bay/Machine/One.antt =====
-- The running scans and their jobs, as the steps interleave (cmd/bayui/server.go).
use mechmind.Http.{gives, fails, Result}
use mechmind.Bay.Heap.{at-append, update, at}
use mechmind.Text.{codes, Text}
use mechmind.Bay.Machine.{
  after, made, Reached, fresh_bench, session_changed, stop_noted, stop_found, stop_requested,
  run_ended, run_noted, run_found, scan_started, Step, Bench, noting, working, Run,
}
use mechmind.Bay.Jobs.{
  request_stop, on_job, new_job, busy_in, start_job, finish_job, busy_at, change_job, note_job,
  is_busy, cancel_job,
}
use mechmind.Bay.{Report, BayServer, ScanJob}
use mechmind.Base.{
  some_none, ◌∙◌, ◌∙◌, Bool-cases, clash, some_inj, ℕ, zero, suc, ◌≡◌, refl, sym, inl, inr, Bool,
  true, false, Option, none, some, List, [], ◌∷◌, ◌++◌,
}

-- The pointers that a running scan holds name the current job, and that job is busy.
pub IsOwner : {F D : Type 0} → BayServer F D → Run → Type 0
IsOwner b (working i) = (b.job ≡ some i) × (busy_at (at i b.jobs) ≡ true)
IsOwner b (noting i j) = (b.job ≡ some i) × (busy_at (at i b.jobs) ≡ true) × (j ≡ i)

-- No scan runs and no job is busy, or one scan runs and owns the current job.
pub HasOneRun : {F D : Type 0} → BayServer F D → List Run → Type 0
HasOneRun b [] = is_busy b ≡ false
HasOneRun b (r ∷ []) = IsOwner b r
HasOneRun b (r ∷ q ∷ rs) = ⊥

module _ {F D : Type 0} where
  HasOneRun-split :
      (b : BayServer F D) (pre post : List Run) (r : Run)
      → HasOneRun b (pre ++ r ∷ post)
      → (pre ≡ []) × (post ≡ []) × IsOwner b r
  unfolding HasOneRun
  HasOneRun-split b [] [] r h = (refl, refl, h)
  HasOneRun-split b [] (q ∷ post) r h = absurd h
  HasOneRun-split b (p ∷ []) post r h = absurd h
  HasOneRun-split b (p ∷ q ∷ pre) post r h = absurd h

  -- An update that leaves the flag alone.
  abbrev KeepsBusy : (ScanJob F D → ScanJob F D) → Type 0
  KeepsBusy f = (j : ScanJob F D) → (f j).busy ≡ j.busy

  busy_at-update :
      (f : ScanJob F D → ScanJob F D)
      → KeepsBusy f
      → (i k : ℕ) (js : List (ScanJob F D)) → busy_at (at i (update k f js)) ≡ busy_at (at i js)
  busy_at-update f keeps i k [] = refl
  busy_at-update f keeps zero zero (j ∷ js) = keeps j
  busy_at-update f keeps zero (suc k) (j ∷ js) = refl
  busy_at-update f keeps (suc i) zero (j ∷ js) = refl
  busy_at-update f keeps (suc i) (suc k) (j ∷ js) = busy_at-update f keeps i k js

  busy_in-update :
      (f : ScanJob F D → ScanJob F D)
      → KeepsBusy f
      → (o : Option ℕ) (k : ℕ) (js : List (ScanJob F D)) → busy_in o (update k f js) ≡ busy_in o js
  busy_in-update f keeps none k js = refl
  busy_in-update f keeps (some i) k js = busy_at-update f keeps i k js

  is_busy-change_job :
      (f : ScanJob F D → ScanJob F D)
      → KeepsBusy f
      → (k : ℕ) (b : BayServer F D) → is_busy (change_job k f b) ≡ is_busy b
  unfolding is_busy
  is_busy-change_job f keeps k b = busy_in-update f keeps b.job k b.jobs

  change_job-IsOwner :
      (f : ScanJob F D → ScanJob F D)
      → KeepsBusy f
      → (k : ℕ) (b : BayServer F D) (r : Run) → IsOwner b r
      → IsOwner (change_job k f b) r
  unfolding IsOwner
  change_job-IsOwner f keeps k b (working i) (e, busy) =
      (e, rw (busy_at-update f keeps i k b.jobs) busy)
  change_job-IsOwner f keeps k b (noting i j) (e, busy, own) =
      (e, rw (busy_at-update f keeps i k b.jobs) busy, own)

  change_job-HasOneRun :
      (f : ScanJob F D → ScanJob F D)
      → KeepsBusy f
      → (k : ℕ) (b : BayServer F D) (rs : List Run) → HasOneRun b rs
      → HasOneRun (change_job k f b) rs
  unfolding HasOneRun
  change_job-HasOneRun f keeps k b [] h = rw (is_busy-change_job f keeps k b) h
  change_job-HasOneRun f keeps k b (r ∷ []) h = change_job-IsOwner f keeps k b r h
  change_job-HasOneRun f keeps k b (r ∷ q ∷ rs) h = absurd h

  -- Where a job is started, none was busy, and the new one is current and busy.
  pub start_job-IsOwner :
      (now : ℕ) (stamp : Text) (b : BayServer F D) (p : ℕ × BayServer F D)
      → start_job now stamp b ≡ some p
      → (is_busy b ≡ false) × IsOwner p.1 (working p.0)
  unfolding start_job IsOwner new_job
  start_job-IsOwner now stamp b p e = elim (Bool-cases (is_busy b)) [
    | inl busy ↦ some_none (rw busy at e)
    | inr free ↦ (
      free,
      rw⁻¹ (some_inj (rw free at e)) (refl, rw (at-append b.jobs (new_job now stamp)) refl),
    )
  ]

  -- The end of its scan frees a job.
  finish_job-frees :
      (r : Result (Report F D)) (o : Option ℕ) (i : ℕ) (js : List (ScanJob F D))
      → o ≡ some i
      → busy_in o (update i (finish_job r) js) ≡ false
  unfolding finish_job
  finish_job-frees r o i [] e = rw e refl
  finish_job-frees (fails m) o zero (j ∷ js) e = rw e refl
  finish_job-frees (gives m) o zero (j ∷ js) e = rw e refl
  finish_job-frees r o (suc i) (j ∷ js) e = rw e (finish_job-frees r (some i) i js refl)

  on_job-HasOneRun :
      (f : ScanJob F D → ScanJob F D)
      → KeepsBusy f
      → (o : Option ℕ) (b : BayServer F D) (rs : List Run) → HasOneRun b rs
      → HasOneRun (on_job o f b) rs
  on_job-HasOneRun f keeps none b rs h = h
  on_job-HasOneRun f keeps (some i) b rs h = change_job-HasOneRun f keeps i b rs h

  request_stop-HasOneRun :
      (b : BayServer F D) (p : Bool × BayServer F D) (rs : List Run)
      → request_stop b ≡ p
      → HasOneRun b rs
      → HasOneRun p.1 rs
  unfolding request_stop cancel_job
  request_stop-HasOneRun b p rs e h = elim (Bool-cases (is_busy b)) [
    | inl busy ↦ rw⁻¹ (rw busy at e) (on_job-HasOneRun cancel_job (λ j. refl) b.job b rs h)
    | inr free ↦ rw⁻¹ (rw free at e) h
  ]

  change_session-HasOneRun :
      (url token : Text) (b : BayServer F D) (rs : List Run)
      → HasOneRun b rs
      → HasOneRun (record b { api_url = url; token = token }) rs
  unfolding HasOneRun IsOwner is_busy
  change_session-HasOneRun url token b [] h = h
  change_session-HasOneRun url token b (working i ∷ []) h = h
  change_session-HasOneRun url token b (noting i j ∷ []) h = h
  change_session-HasOneRun url token b (r ∷ q ∷ rs) h = h

  scan_started-HasOneRun :
      (b c : BayServer F D) (i : ℕ) (rs : List Run)
      → (is_busy b ≡ false) × IsOwner c (working i)
      → HasOneRun b rs
      → HasOneRun c (working i ∷ rs)
  unfolding HasOneRun IsOwner is_busy
  scan_started-HasOneRun b c i [] (free, own) h = own
  scan_started-HasOneRun b c i (working k ∷ []) (free, own) (e, busy) =
      absurd (clash (sym busy ∙ rw e at free))
  scan_started-HasOneRun b c i (noting k j ∷ []) (free, own) (e, busy, _) =
      absurd (clash (sym busy ∙ rw e at free))
  scan_started-HasOneRun b c i (r ∷ q ∷ rs) own h = h

  Step-HasOneRun : {v w : Bench F D} → Step v w → HasOneRun v.bay v.runs → HasOneRun w.bay w.runs
  unfolding HasOneRun IsOwner is_busy note_job
  Step-HasOneRun {v} (scan_started now stamp i {b} e) h =
      scan_started-HasOneRun v.bay b i v.runs (start_job-IsOwner now stamp v.bay (i, b) e) h
  Step-HasOneRun {v} (run_found i j pre post e cur) h =
      let (before, behind, (here, busy)) = HasOneRun-split v.bay pre post (working i) (rw e at h) in
      rw (before, behind) (here, busy, some_inj (sym cur ∙ here))
  Step-HasOneRun {v} (run_noted i j pre post stamp phase e) h =
      let (before, behind, own) = HasOneRun-split v.bay pre post (noting i j) (rw e at h) in
      let (here, busy, same) =
        change_job-IsOwner (note_job stamp phase) (λ k. refl) j v.bay (noting i j) own in
      rw (before, behind) (here, busy)
  Step-HasOneRun {v} (run_ended i pre post r e) h =
      let (before, behind, (here, busy)) = HasOneRun-split v.bay pre post (working i) (rw e at h) in
      rw (before, behind) (finish_job-frees r v.bay.job i v.bay.jobs here)
  Step-HasOneRun {v} (stop_requested {b = b} e) h =
      request_stop-HasOneRun v.bay (true, b) v.runs e h
  Step-HasOneRun (stop_found j pre post e cur) h = h
  Step-HasOneRun {v} (stop_noted j pre post stamp e) h =
      change_job-HasOneRun (note_job stamp (codes "Cancel requested")) (λ k. refl) j v.bay v.runs h
  Step-HasOneRun {v} (session_changed url token) h =
      change_session-HasOneRun url token v.bay v.runs h

  -- In every interleaving, either no scan runs and no job is busy, or exactly one scan runs: its
  -- job is the current one and busy, and the job that its note is about to be written on is its
  -- own.
  pub Reached-HasOneRun : {w : Bench F D} → Reached w → HasOneRun w.bay w.runs
  unfolding fresh_bench HasOneRun is_busy
  Reached-HasOneRun (made url token) = refl
  Reached-HasOneRun (after r s) = Step-HasOneRun s (Reached-HasOneRun r)
