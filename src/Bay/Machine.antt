-- ===== src/Bay/Machine.antt =====
-- The local server as its handlers and its scans interleave: each step is one stretch under a
-- lock. A scan runs beside the handlers; `note` first takes the current job and then writes on it.
pub mod One
pub mod Sound
use mechmind.Base.{ℕ, ◌+◌, ◌≡◌, true, none, some, List, [], ◌∷◌, ◌++◌}
use mechmind.Text.{Text, codes}
use mechmind.Http.{Result}
use mechmind.Bay.{Report, BayServer}
use mechmind.Bay.Jobs.{start_job, request_stop, finish_job, change_job, note_job}

-- A running `runScan`, by the job that it was given: between its notes, or about to write a note
-- on the job that was current when it looked.
pub data Run : Type 0 where
  working : ℕ → Run
  noting : ℕ → ℕ → Run

-- A `stopScan` that has cancelled a job: before and after it has looked for the current job.
pub data Stop : Type 0 where
  requested : Stop
  found : ℕ → Stop

pub record Bench (F D : Type 0) : Type 0 where
  pub bay : BayServer F D
  pub runs : List Run
  pub stops : List Stop

-- What one stretch does.
pub data Step {F D : Type 0} : Bench F D → Bench F D → Type 0 where
  scan_started :
      {w : Bench F D} (now : ℕ) (stamp : Text) (i : ℕ) {b : BayServer F D}
      → start_job now stamp w.bay ≡ some (i, b)
      → Step w (record w { bay = b; runs = working i ∷ w.runs })
  run_found :
      {w : Bench F D} (i j : ℕ) (pre post : List Run)
      → w.runs ≡ pre ++ working i ∷ post
      → w.bay.job ≡ some j
      → Step w (record w { runs = pre ++ noting i j ∷ post })
  run_noted :
      {w : Bench F D} (i j : ℕ) (pre post : List Run) (stamp phase : Text)
      → w.runs ≡ pre ++ noting i j ∷ post
      → Step w (record w {
        bay = change_job j (note_job stamp phase) w.bay;
        runs = pre ++ working i ∷ post;
      })
  run_ended :
      {w : Bench F D} (i : ℕ) (pre post : List Run) (r : Result (Report F D))
      → w.runs ≡ pre ++ working i ∷ post
      → Step w (record w { bay = change_job i (finish_job r) w.bay; runs = pre ++ post })
  stop_requested :
      {w : Bench F D} {b : BayServer F D}
      → request_stop w.bay ≡ (true, b)
      → Step w (record w { bay = b; stops = requested ∷ w.stops })
  stop_found :
      {w : Bench F D} (j : ℕ) (pre post : List Stop)
      → w.stops ≡ pre ++ requested ∷ post
      → w.bay.job ≡ some j
      → Step w (record w { stops = pre ++ found j ∷ post })
  stop_noted :
      {w : Bench F D} (j : ℕ) (pre post : List Stop) (stamp : Text)
      → w.stops ≡ pre ++ found j ∷ post
      → Step w (record w {
        bay = change_job j (note_job stamp (codes "Cancel requested")) w.bay;
        stops = pre ++ post;
      })
  session_changed :
      {w : Bench F D} (url token : Text)
      → Step w (record w { bay = record w.bay { api_url = url; token = token } })

-- A server that has just been made.
unfoldable pub fresh_bench : {F D : Type 0} → Text → Text → Bench F D
fresh_bench url token = record {
  bay = record { api_url = url; token = token; job = none; jobs = [] };
  runs = [];
  stops = [];
}

-- What is reached from a fresh server.
pub data Reached {F D : Type 0} : Bench F D → Type 0 where
  made : (url token : Text) → Reached (fresh_bench url token)
  after : {v w : Bench F D} → Reached v → Step v w → Reached w
