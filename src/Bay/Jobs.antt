-- ===== src/Bay/Jobs.antt =====
-- The operations on the current scan job (cmd/bayui/server.go: the guard of handleScan, note,
-- stopScan, jobStatus, finishJob). `stamp` is the clock as "15:04:05".
use mechmind.Http.{gives, fails, Result}
use mechmind.Base.{
  ◌/◌, none, ◌-◌, ◌∷◌, some, [], true, ◌++◌, false, Option, Bool, List, ℕ, drop, ltb, if◌then◌else◌,
  length,
}
use mechmind.Text.{Text, codes, text_eq}
use mechmind.Bay.{Report, ScanJob, BayServer}
use mechmind.Bay.Heap.{at, update}

-- 50 seconds.
abbrev pub budget : ℕ
budget = 50000000000

pub record Status (F D : Type 0) : Type 0 where
  pub busy : Bool
  pub done : Bool
  pub phase : Text
  pub log : List Text
  pub elapsed_ms : ℕ
  pub timeout_ms : ℕ
  pub error : Option Text
  pub result : Option (Report F D)

-- The last 50 lines.
unfoldable pub last_lines : List Text → List Text
last_lines log = if ltb 50 (length log) then drop (length log - 50) log else log

module _ {F D : Type 0} where
  unfoldable pub note_job : Text → Text → ScanJob F D → ScanJob F D
  unfolding last_lines
  note_job stamp phase j = record j {
    phase = phase;
    log = last_lines (j.log ++ (stamp ++ codes "  " ++ phase) ∷ []);
  }

  unfoldable pub cancel_job : ScanJob F D → ScanJob F D
  cancel_job j = record j { cancelled = true }

  -- `finishJob`: an error, or the result.
  unfoldable pub finish_job : Result (Report F D) → ScanJob F D → ScanJob F D
  finish_job (fails e) j = record j { busy = false; done = true; err = e; phase = codes "Failed" }
  finish_job (gives r) j = record j {
    busy = false;
    done = true;
    phase = codes "Done";
    result = some r;
  }

  abbrev pub change_job : ℕ → (ScanJob F D → ScanJob F D) → BayServer F D → BayServer F D
  change_job i f b = record b { jobs = update i f b.jobs }

  -- Nothing happens where there is no job.
  abbrev pub on_job : Option ℕ → (ScanJob F D → ScanJob F D) → BayServer F D → BayServer F D
  on_job none f b = b
  on_job (some i) f b = change_job i f b

  -- `note`, on the job that is current.
  unfoldable pub note : Text → Text → BayServer F D → BayServer F D
  unfolding note_job
  note stamp phase b = on_job b.job (note_job stamp phase) b

  abbrev pub busy_at : Option (ScanJob F D) → Bool
  busy_at none = false
  busy_at (some j) = j.busy

  abbrev pub busy_in : Option ℕ → List (ScanJob F D) → Bool
  busy_in none js = false
  busy_in (some i) js = busy_at (at i js)

  -- Whether the current job is busy; there may be no job.
  unfoldable pub is_busy : BayServer F D → Bool
  is_busy b = busy_in b.job b.jobs

  unfoldable pub new_job : ℕ → Text → ScanJob F D
  new_job now stamp = record {
    busy = true;
    done = false;
    phase = codes "Starting";
    log = (stamp ++ codes "  Starting") ∷ [];
    started = now;
    timeout = budget;
    err = [];
    result = none;
    cancelled = false;
  }

  -- What handleScan does with `jobMu` held: `none` where a job is busy, and else the new job.
  unfoldable pub start_job : ℕ → Text → BayServer F D → Option (ℕ × BayServer F D)
  unfolding is_busy new_job
  start_job now stamp b =
      if is_busy b
      then none
      else some (
        length b.jobs,
        record b { job = some (length b.jobs); jobs = b.jobs ++ new_job now stamp ∷ [] },
      )

  -- `stopScan` up to its note: whether there was a busy job.
  unfoldable pub request_stop : BayServer F D → Bool × BayServer F D
  unfolding is_busy cancel_job
  request_stop b = if is_busy b then (true, on_job b.job cancel_job b) else (false, b)

  unfoldable pub stop_scan : Text → BayServer F D → Bool × BayServer F D
  unfolding request_stop note
  stop_scan stamp b =
      let (asked, b1) = request_stop b in
      if asked then (true, note stamp (codes "Cancel requested") b1) else (false, b1)

  idle : Status F D
  idle = record {
    busy = false;
    done = false;
    phase = [];
    log = [];
    elapsed_ms = 0;
    timeout_ms = 50000;
    error = none;
    result = none;
  }

  status_of : ℕ → Option (ScanJob F D) → Status F D
  unfolding idle text_eq
  status_of now none = idle
  status_of now (some j) = record {
    busy = j.busy;
    done = j.done;
    phase = j.phase;
    log = j.log;
    elapsed_ms = (now - j.started) / 1000000;
    timeout_ms = j.timeout / 1000000;
    error = if text_eq j.err [] then none else some j.err;
    result = j.result;
  }

  unfoldable pub job_status : ℕ → BayServer F D → Status F D
  unfolding status_of
  job_status now b = elim b.job [ none ↦ idle | some i ↦ status_of now (at i b.jobs) ]
