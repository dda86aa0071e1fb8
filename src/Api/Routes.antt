-- ===== src/Api/Routes.antt =====
-- The routes with their guards (internal/api/server.go: Router, requireAuth, requireRole),.
pub mod Guards
pub mod Local
use mechmind.Api.Scans.{enrichment_seed, list_vehicle_scans, CreateScanRequest}
use mechmind.Api.Accounts.{
  list_all_technicians, list_orgs, list_org_technicians, set_active, patch_setting, create_org, me,
}
use mechmind.Store.{org_admin, super_admin, Db, Stored}
use mechmind.Base.{ℕ, Bool, true, Option, none, some, List, [], ◌∷◌, if◌then◌else◌}
use mechmind.Text.{Text, codes}
use mechmind.Base.Float.{Floats}
use mechmind.Explain.Narrator
use mechmind.Api.Explain.{Library, ExplainRequest, Desk, Explained, explain_code}
use mechmind.Http.{answered, refused, Answer}
use mechmind.Api.Scans.{create_scan, get_scan, enrichment_stats}
use mechmind.Api.Accounts.{list_all_technicians}
use mechmind.Api.{Outside, Payload, Claims, State, allows, authorize}

-- The routes behind `requireAuth` but for the explanation of a code, with what the handler reads
-- of the request.
pub data Route (F : Type 0) : Type 0 where
  to_me : Route F
  to_create_scan : Stored (CreateScanRequest F) → Route F
  to_scan : Text → Route F
  to_vehicle_scans : Text → Route F
  to_orgs : Route F
  to_create_org : Option Text → Route F
  to_all_technicians : Route F
  to_setting : Text → Stored Text → Route F
  to_stats : Route F
  to_seed : Route F
  to_active : Text → Stored Bool → Route F
  to_org_technicians : Route F

-- The roles that a route names; `none` where it names none.
abbrev pub roles_of : {F : Type 0} → Route F → Option (List Text)
roles_of to_me = none
roles_of (to_create_scan b) = none
roles_of (to_scan id) = none
roles_of (to_vehicle_scans vin) = none
roles_of to_orgs = some (super_admin ∷ [])
roles_of (to_create_org b) = some (super_admin ∷ [])
roles_of to_all_technicians = some (super_admin ∷ [])
roles_of (to_setting k b) = some (super_admin ∷ [])
roles_of to_stats = some (super_admin ∷ [])
roles_of to_seed = some (super_admin ∷ [])
roles_of (to_active id b) = some (super_admin ∷ org_admin ∷ [])
roles_of to_org_technicians = some (org_admin ∷ [])

-- `requireRole`, where a route names roles.
unfoldable pub passes : Option (List Text) → Text → Bool
unfolding allows
passes none role = true
passes (some roles) role = allows roles role

-- `requireAuth` and `requireRole` before a handler.
unfoldable pub guarded :
    {P W : Type 0}
    → Answer Claims
    → Option (List Text)
    → (Claims → W → Answer P × W)
    → W
    → Answer P × W
unfolding passes
guarded (refused status e) roles handler w = (refused status e, w)
guarded (answered status c) roles handler w =
    let done = handler c w in
    if passes roles c.role then done else (refused 403 (codes "forbidden"), w)

module _ {F : Type 0} (O : Outside F) where
  open O use {Scans}

  abbrev pub Replied : Type 0
  Replied = Answer (Payload F) × State Scans

  abbrev on_accounts : Answer (Payload F) × Db → State Scans → Replied
  on_accounts (a, db) w = (a, record w { db = db })

  abbrev on_scans : Answer (Payload F) × Scans → State Scans → Replied
  on_scans (a, s) w = (a, record w { stored = s })

  -- The handler of a route.
  unfoldable pub handle : ℕ → Claims → Route F → State Scans → Replied
  unfolding me create_scan get_scan list_vehicle_scans create_org patch_setting enrichment_stats
      enrichment_seed set_active list_org_technicians
  handle now c to_me w = on_accounts (me O c w.db) w
  handle now c (to_create_scan b) w = on_scans (create_scan O c b w.stored) w
  handle now c (to_scan id) w = on_scans (get_scan O c id w.stored) w
  handle now c (to_vehicle_scans vin) w = on_scans (list_vehicle_scans O c vin w.stored) w
  handle now c to_orgs w = on_accounts (list_orgs O w.db) w
  handle now c (to_create_org b) w = on_accounts (create_org O b w.db) w
  handle now c to_all_technicians w = on_accounts (list_all_technicians O w.db) w
  handle now c (to_setting k b) w = on_accounts (patch_setting O k b w.db) w
  handle now c to_stats w = on_scans (enrichment_stats O w.stored) w
  handle now c to_seed w = on_scans (enrichment_seed O now w.stored) w
  handle now c (to_active id b) w = on_accounts (set_active O c id b w.db) w
  handle now c to_org_technicians w = on_accounts (list_org_technicians O c w.db) w

  -- A request with the text of its Authorization header.
  unfoldable pub serve : ℕ → Text → Route F → State Scans → Replied
  unfolding guarded authorize handle
  serve now header r w = guarded (authorize O now header) (roles_of r) (λ c v. handle now c r v) w

  -- A request for the explanation of a code, for which no role is named.
  unfoldable pub serve_explain :
      (R : Floats) (fixed : ℕ → R.F → Text) (scan_float : Text → Option R.F) (L : Library R.F)
      → (N : Narrator.Outside R.F) → ℕ
      → Text
      → ExplainRequest
      → Desk L.Shelf N.World
      → Answer (Explained R.F) × Desk L.Shelf N.World
  unfolding guarded authorize explain_code
  serve_explain R fixed scan_float L N now header req d =
      guarded (authorize O now header) none (λ c e. explain_code R fixed scan_float L N c req e) d
