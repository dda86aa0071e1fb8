-- ===== src/Start.antt =====
-- How the API server starts (cmd/api/main.go): its settings, its tokens, the first administrator
-- and
-- the first seed. The environment is a parameter.
pub mod Settings
pub mod Auth
pub mod Tokens
use mechmind.Base.{◌+◌, Option, none, some, [], ◌++◌, if◌then◌else◌}
use mechmind.Base.Int.{ℤ}
use mechmind.Text.{Text, codes, text_eq, trim_space}
use mechmind.Store.{Stored, erred, holds, Technician, Db, Postgres, error_text}
use mechmind.Store.Accounts.{ensure_bootstrap_admin}
use mechmind.Enrichment.{Queue, Service}
use mechmind.Enrichment.Enqueue.{Payloads, enqueue_seed}
use mechmind.Http.{Result, fails, gives}
use mechmind.Start.Settings.{Config, load, Env}
use mechmind.Start.Auth.{Manager, new_manager, bootstrap_from_env, Bootstrap}

-- What the server serves with, and the rows after the start.
pub record Started : Type 0 where
  pub settings : Config
  pub manager : Manager
  pub db : Db
  pub queue : Queue

module _ (E : Env) (G : Postgres) (V : Service) (P : Payloads) where
  -- The first administrator, where the environment names one; an error of it ends the program.
  unfoldable pub bootstrap : Option Bootstrap → Db → Result Db
  unfolding ensure_bootstrap_admin error_text
  bootstrap none db = gives db
  bootstrap (some b) db = made (ensure_bootstrap_admin G b.email b.password b.name db)
    where
      made : Stored (Option Technician) × Db → Result Db
      made (erred e, d) = fails (codes "bootstrap admin: " ++ error_text e)
      made (holds t, d) = gives d

  -- The seed's error is logged only.
  unfoldable pub seeded : Config → Manager → Queue → Result Db → Result Started
  unfolding enqueue_seed
  seeded cfg m q (fails e) = fails e
  seeded cfg m q (gives db) =
      gives (record { settings = cfg; manager = m; db = db; queue = (enqueue_seed V P q).1 })

  unfoldable pub with_manager : Config → Result Manager → Db → Queue → Result Started
  unfolding bootstrap seeded bootstrap_from_env
  with_manager cfg (fails e) db q = fails (codes "auth: " ++ e)
  with_manager cfg (gives m) db q = seeded cfg m q (bootstrap (bootstrap_from_env E) db)

  -- `main`, from the settings to the seed, over a database that is there; an error is the text of
  -- the log before the program ends.
  unfoldable pub start : Db → Queue → Result Started
  unfolding load new_manager with_manager text_eq
  start db q =
      let cfg = load E in
      let started = with_manager cfg (new_manager cfg.jwt_secret cfg.jwt_ttl) db q in
      if text_eq cfg.jwt_secret [] then fails (codes "JWT_SECRET is required in .env") else started
