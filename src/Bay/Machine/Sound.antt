-- ===== src/Bay/Machine/Sound.antt =====
-- The jobs of the server, as the steps interleave (cmd/bayui/server.go).
use mechmind.Http.{gives, fails, Result}
use mechmind.Bay.Heap.{update-All}
use mechmind.Text.{codes, Text}
use mechmind.Bay.Machine.{
  after, made, Reached, fresh_bench, session_changed, stop_noted, stop_found, stop_requested,
  run_ended, run_noted, run_found, scan_started, Step, Bench,
}
use mechmind.Bay.Jobs.{
  request_stop, on_job, new_job, start_job, last_lines, finish_job, change_job, note_job, is_busy,
  cancel_job,
}
use mechmind.Bay.{Report, BayServer, ScanJob}
use mechmind.Base.{
  All-append, some_none, length-drop_sub, Bool-cases, some_inj, All, ℕ, ◌-◌, ◌≤◌, ◌≡◌, refl, inl,
  inr, Bool, true, not, Option, none, some, List, [], ◌∷◌, ◌++◌, arith, ltb, length,
}

-- A job is either busy or done, and its log has at most 50 lines.
pub IsSound : {F D : Type 0} → ScanJob F D → Type 0
IsSound j = (j.done ≡ not j.busy) × (length j.log ≤ 50)

length-last_lines : (log : List Text) → length (last_lines log) ≤ 50
unfolding last_lines
length-last_lines log = elim (Bool-cases (ltb 50 (length log))) [
  | inl long ↦ rw (long, length-drop_sub (length log - 50) log) (omega arith)
  | inr short ↦ rw short (ground (arith, short))
]

module _ {F D : Type 0} where
  change_job-IsSound :
      (f : ScanJob F D → ScanJob F D)
      → ((j : ScanJob F D) → IsSound j → IsSound (f j))
      → (k : ℕ) (b : BayServer F D) → All IsSound b.jobs
      → All IsSound (change_job k f b).jobs
  change_job-IsSound f keeps k b h = update-All IsSound k f keeps b.jobs h

  note_job-IsSound :
      (stamp phase : Text) (j : ScanJob F D) → IsSound j → IsSound (note_job stamp phase j)
  unfolding IsSound note_job
  note_job-IsSound stamp phase j (b, l) =
      (b, length-last_lines (j.log ++ (stamp ++ codes "  " ++ phase) ∷ []))

  cancel_job-IsSound : (j : ScanJob F D) → IsSound j → IsSound (cancel_job j)
  unfolding IsSound cancel_job
  cancel_job-IsSound j h = h

  finish_job-IsSound :
      (r : Result (Report F D)) (j : ScanJob F D) → IsSound j → IsSound (finish_job r j)
  unfolding IsSound finish_job
  finish_job-IsSound (fails e) j (b, l) = (refl, l)
  finish_job-IsSound (gives r) j (b, l) = (refl, l)

  start_job-IsSound :
      (now : ℕ) (stamp : Text) (b : BayServer F D) (p : ℕ × BayServer F D)
      → start_job now stamp b ≡ some p
      → All IsSound b.jobs
      → All IsSound p.1.jobs
  unfolding start_job IsSound new_job
  start_job-IsSound now stamp b p e h = elim (Bool-cases (is_busy b)) [
    | inl busy ↦ some_none (rw busy at e)
    | inr free ↦
        rw⁻¹ (some_inj (rw free at e))
          (All-append IsSound b.jobs (new_job now stamp ∷ []) h ((refl, omega arith), tt))
  ]

  on_job-IsSound :
      (o : Option ℕ) (b : BayServer F D)
      → All IsSound b.jobs
      → All IsSound (on_job o cancel_job b).jobs
  on_job-IsSound none b h = h
  on_job-IsSound (some i) b h = change_job-IsSound cancel_job cancel_job-IsSound i b h

  request_stop-IsSound :
      (b : BayServer F D) (p : Bool × BayServer F D)
      → request_stop b ≡ p
      → All IsSound b.jobs
      → All IsSound p.1.jobs
  unfolding request_stop
  request_stop-IsSound b p e h = elim (Bool-cases (is_busy b)) [
    | inl busy ↦ rw⁻¹ (rw busy at e) (on_job-IsSound b.job b h)
    | inr free ↦ rw⁻¹ (rw free at e) h
  ]

  Step-IsSound : {v w : Bench F D} → Step v w → All IsSound v.bay.jobs → All IsSound w.bay.jobs
  Step-IsSound {v} (scan_started now stamp i {b} e) h = start_job-IsSound now stamp v.bay (i, b) e h
  Step-IsSound (run_found i j pre post e cur) h = h
  Step-IsSound {v} (run_noted i j pre post stamp phase e) h =
      change_job-IsSound (note_job stamp phase) (note_job-IsSound stamp phase) j v.bay h
  Step-IsSound {v} (run_ended i pre post r e) h =
      change_job-IsSound (finish_job r) (finish_job-IsSound r) i v.bay h
  Step-IsSound {v} (stop_requested {b = b} e) h = request_stop-IsSound v.bay (true, b) e h
  Step-IsSound (stop_found j pre post e cur) h = h
  Step-IsSound {v} (stop_noted j pre post stamp e) h =
      change_job-IsSound (note_job stamp (codes "Cancel requested"))
        (note_job-IsSound stamp (codes "Cancel requested")) j v.bay h
  Step-IsSound (session_changed url token) h = h

  -- In every interleaving each job ever made is either busy or done, and its log has at most 50
  -- lines.
  pub Reached-IsSound : {w : Bench F D} → Reached w → All IsSound w.bay.jobs
  unfolding fresh_bench
  Reached-IsSound (made url token) = tt
  Reached-IsSound (after r s) = Step-IsSound s (Reached-IsSound r)
