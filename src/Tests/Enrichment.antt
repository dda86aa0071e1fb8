-- ===== src/Tests/Enrichment.antt =====
-- Runs of the enrichment worker (internal/enrichment/worker.go).

use mechmind.Enrichment.Adds.{IsIdle}
use mechmind.Base.{All, refl, none, [], ◌∷◌}
use mechmind.Text.{codes}
use mechmind.Enrichment.{pending, Queue, Service}

abbrev pub steady : Service
steady = record { fault = λ n. none; clock = λ n. 100; new_id = λ n. codes "id" }

abbrev pub waiting : Queue
waiting = record {
  jobs =
      record {
        id = codes "j";
        kind = codes "vin_decode";
        payload = codes "{}";
        status = pending;
        attempts = 4;
        last_error = [];
        created_at = 0;
        run_after = 0;
      }
      ∷ [];
  statements = 0;
}

pub waiting-IsIdle : All IsIdle waiting.jobs
unfolding IsIdle
waiting-IsIdle = (refl, tt)
