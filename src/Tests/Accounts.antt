-- ===== src/Tests/Accounts.antt =====
-- Runs of the accounts and of the API server (internal/store/store.go, internal/api/server.go).
use mechmind.Base.{ℕ, ◌≡◌, refl, ap, true, false, none, some, List, [], ◌∷◌}
use mechmind.Text.{Text, codes, text_eq}
use mechmind.Text.Laws.{text_eq_refl}
use mechmind.Store.{
  super_admin, not_found, erred, holds, org_admin, Organization, Technician, Db, Postgres, Stored,
}
use mechmind.Store.Accounts.{returned, authenticate}
use mechmind.Store.Accounts.Register.{RegisterInput, register_technician}
use mechmind.Store.Accounts.Outcome.{IsRegistered, register_technician-IsRegistered}
use mechmind.Store.Accounts.Login.{holds_inj, register_technician-authenticate}
use mechmind.Api.{ScanRecord, Outside, Claims, State}
use mechmind.Api.Accounts.{set_active}
use mechmind.Api.Routes.{to_active, serve, serve_explain, handle}
use mechmind.Api.Explain.{explain_code}
use mechmind.Tests.Explain.{library, talkative, question, desk}
use mechmind.Tests.Numbers.{whole}
use mechmind.Tests.Diagnoses.{show_ℤ, unread}
use mechmind.Api.Routes.Guards.{IsGuarded, serve-IsGuarded, FiltersByOrg}
use mechmind.Api.Routes.Local.{IsLocal, set_active-IsLocal}

-- A database that never fails and whose hashes are the passwords.
abbrev steady : Postgres
steady = record {
  fault = λ n. none;
  duplicate = codes "duplicate key value violates unique constraint";
  new_id = λ n. codes "id";
  new_code = λ n. codes "code";
  generate = λ p. holds p;
  compare_hash = λ h p. text_eq h p;
}

abbrev open_db : Db
open_db = record {
  technicians = [];
  organizations = [];
  settings = (codes "allow_self_register", codes "true") ∷ [];
  statements = 0;
}

abbrev newcomer : RegisterInput
newcomer = record {
  email = codes "a@b";
  password = codes "longenough";
  display_name = codes "Ada";
  shop_name = codes "Shop";
  invite_code = [];
}

register_technician-IsRegistered_example :
    IsRegistered steady newcomer open_db (register_technician steady newcomer open_db)
register_technician-IsRegistered_example = register_technician-IsRegistered steady newcomer open_db

abbrev ada : Technician
ada = record {
  id = codes "id";
  org_id = some (codes "id");
  email = codes "a@b";
  display_name = codes "Ada";
  role = org_admin;
  active = true;
  password_hash = [];
}

abbrev shop : Organization
shop = record {
  id = codes "id";
  name = codes "Shop";
  network_id = codes "code";
  invite_code = codes "code";
}

joined : (register_technician steady newcomer open_db).0 ≡ holds (ada, shop)
unfolding register_technician
joined = refl

steady-IsSteady : steady.fault (register_technician steady newcomer open_db).1.statements ≡ none
steady-IsSteady = refl

generate-compare_hash : (p h : Text) → steady.generate p ≡ holds h → steady.compare_hash h p ≡ true
generate-compare_hash p h e = rw⁻¹ (holds_inj e) (text_eq_refl p)

register_technician-authenticate_example :
    (row : Technician) × ((authenticate steady newcomer.email newcomer.password
        (register_technician steady newcomer open_db).1).0
      ≡ holds row)
    × (returned row ≡ ada)
register_technician-authenticate_example =
    register_technician-authenticate steady newcomer open_db ada shop generate-compare_hash joined
      steady-IsSteady

abbrev stored_ada : Technician
stored_ada = record ada { password_hash = codes "longenough" }

abbrev staffed : Db
staffed = record open_db { technicians = stored_ada ∷ [] }

logged_in : (authenticate steady (codes "a@b") (codes "longenough") staffed).0 ≡ holds stored_ada
unfolding authenticate
logged_in = refl

abbrev claims : Claims
claims = record {
  technician_id = codes "id";
  org_id = codes "id";
  email = codes "a@b";
  role = org_admin;
}

-- A service without scans; every token is that of the member above.
abbrev service : Outside ℕ
service = record {
  postgres = steady;
  parse_uuid = λ t. some t;
  issue = λ now id org email role. holds (codes "t");
  parse_token = λ now t. some claims;
  Scans = ℕ;
  create_scan = λ i s. (erred not_found, s);
  enqueue_vin_decode = λ id vin s. s;
  get_scan = λ id s. (erred not_found, s);
  list_scans_by_vin = λ vin org n s. (holds [], s);
  enrichment_stats = λ s. (holds [], s);
  enqueue_job = λ kind now s. (holds (codes "job"), s);
}

abbrev world : State ℕ
world = record { db = staffed; stored = 0 }

serve-IsGuarded_example :
    IsGuarded service 0
      (codes "Bearer t")
      (some (super_admin ∷ org_admin ∷ []))
      (λ c v. handle service 0 c (to_active (codes "id") (holds false)) v)
      world
      (serve service 0 (codes "Bearer t") (to_active (codes "id") (holds false)) world)
    × IsGuarded service 0
        (codes "Bearer t")
        none
        (λ c e. explain_code whole show_ℤ unread library talkative c question e)
        desk
        (serve_explain service whole show_ℤ unread library talkative 0
          (codes "Bearer t")
          question
          desk)
serve-IsGuarded_example =
    serve-IsGuarded service whole show_ℤ unread library talkative 0 (codes "Bearer t")
      (to_active (codes "id") (holds false)) world question desk

service-FiltersByOrg : FiltersByOrg service
unfolding FiltersByOrg
service-FiltersByOrg vin org n s t recs e =
    rw⁻¹ (holds_inj (ap (λ (x : Stored (List (ScanRecord ℕ)) × ℕ). x.0) e)) tt

set_active-IsLocal_example :
    IsLocal service claims
      (codes "id")
      staffed
      (set_active service claims (codes "id") (holds false) staffed)
set_active-IsLocal_example =
    set_active-IsLocal service claims (codes "id") (holds false) staffed (text_eq_refl org_admin)
