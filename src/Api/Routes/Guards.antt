-- ===== src/Api/Routes/Guards.antt =====
-- What the guards of the routes and of their handlers let through.

use mechmind.Http.{refused, answered, Answer}
use mechmind.Api.Scans.{look_up, may_see, list_vehicle_scans, listed, found_scan, list_own}
use mechmind.Base.Float.{Floats}
use mechmind.Explain.Narrator
use mechmind.Api.Explain.{Library, ExplainRequest, Desk, explain_code}
use mechmind.Api.Routes.{serve_explain, handle, roles_of, passes, Route, guarded, serve}
use mechmind.Api.Scans.{get_scan}
use mechmind.Api.{
  scan, scans, scans, or_invalid, Payload, bearer, authorize, State, Claims, ScanRecord, Outside,
}
use mechmind.Base.{
  drop, All, ◌∙◌, ◌∙◌, All-imp, Bool-cases, ℕ, ◌≡◌, refl, sym, ap, ◌⊎◌, inl, inr, true, Option,
  none, some, List, [], ◌∷◌,
}
use mechmind.Text.{Text, codes, text_eq, has_prefix}
use mechmind.Store.{erred, super_admin, holds, Stored}

module _ {F : Type 0} (O : Outside F) where
  open O use {Scans, parse_uuid, parse_token, postgres}

  -- A refusal that changes nothing, or a handler that a valid token of a fitting role has reached.
  pub IsGuarded :
      {P W : Type 0}
      → ℕ
      → Text
      → Option (List Text)
      → (Claims → W → Answer P × W)
      → W
      → Answer P × W
      → Type 0
  IsGuarded now header roles handler w out =
      ((s : ℕ) × (e : Text) × (out ≡ (refused s e, w)))
      ⊎ ((c : Claims) × (has_prefix header bearer ≡ true)
          × (parse_token now (drop 7 header) ≡ some c)
          × (passes roles c.role ≡ true)
          × (out ≡ handler c w))

  module _ {P W : Type 0} (roles : Option (List Text)) (handler : Claims → W → Answer P × W) where
    refused-IsGuarded :
        (now : ℕ) (header : Text) (w : W) (s : ℕ) (e : Text)
        → IsGuarded now header roles handler w (guarded (refused s e) roles handler w)
    unfolding IsGuarded guarded
    refused-IsGuarded now header w s e = inl (s, e, refl)

    parsed-IsGuarded :
        (now : ℕ) (header : Text) (w : W) (o : Option Claims)
        → has_prefix header bearer ≡ true
        → parse_token now (drop 7 header) ≡ o
        → IsGuarded now header roles handler w (guarded (or_invalid o) roles handler w)
    unfolding IsGuarded guarded
    parsed-IsGuarded now header w none bears parsed = inl (401, codes "invalid token", refl)
    parsed-IsGuarded now header w (some c) bears parsed = elim (Bool-cases (passes roles c.role)) [
      | inl fits ↦ inr (c, bears, parsed, fits, rw fits refl)
      | inr unfit ↦ inl (403, codes "forbidden", rw unfit refl)
    ]

    guarded-IsGuarded :
        (now : ℕ) (header : Text) (w : W)
        → IsGuarded now header roles handler w (guarded (authorize O now header) roles handler w)
    unfolding authorize
    guarded-IsGuarded now header w = elim (Bool-cases (has_prefix header bearer)) [
      | inr bare ↦ rw bare (refused-IsGuarded now header w 401 (codes "missing bearer token"))
      | inl bears ↦
          rw bears (parsed-IsGuarded now header w (parse_token now (drop 7 header)) bears refl)
    ]

  -- Every request behind the guards, the explanation of a code among them, is either refused, with
  -- nothing changed, or handled for the claims of a valid bearer token whose role is one that the
  -- route names, where it names any; the explanation of a code names none.
  pub serve-IsGuarded :
      (R : Floats) (fixed : ℕ → R.F → Text) (scan_float : Text → Option R.F) (L : Library R.F)
      → (N : Narrator.Outside R.F) (now : ℕ) (header : Text) (r : Route F) (w : State Scans)
      → (req : ExplainRequest) (d : Desk L.Shelf N.World)
      → IsGuarded now header (roles_of r) (λ c v. handle O now c r v) w (serve O now header r w)
        × IsGuarded now header none
            (λ c e. explain_code R fixed scan_float L N c req e)
            d
            (serve_explain O R fixed scan_float L N now header req d)
  unfolding serve serve_explain
  serve-IsGuarded R fixed scan_float L N now header r w req d = (
    guarded-IsGuarded (roles_of r) (λ c v. handle O now c r v) now header w,
    guarded-IsGuarded none (λ c e. explain_code R fixed scan_float L N c req e) now header d,
  )

  -- A scan of the claims' own organization, or any scan for a super_admin.
  pub IsOwn : Claims → ScanRecord F → Type 0
  IsOwn c rec =
      (text_eq c.role super_admin ≡ true)
      ⊎ ((text_eq rec.org_id c.org_id ≡ true) ⊎ (parse_uuid c.org_id ≡ some rec.org_id))

  -- Every scan that is shown is one of those.
  pub IsVisible : Claims → Answer (Payload F) × Scans → Type 0
  IsVisible c (answered status (scan rec), s) = IsOwn c rec
  IsVisible c (answered status (scans vin recs), s) = All (IsOwn c) recs
  IsVisible c (a, s) = Unit

  found_scan-IsVisible :
      (c : Claims) (m : Stored (ScanRecord F) × Scans) → IsVisible c (found_scan O c m)
  unfolding found_scan may_see IsVisible IsOwn
  found_scan-IsVisible c (erred e, s) = tt
  found_scan-IsVisible c (holds rec, s) = elim (Bool-cases (text_eq c.role super_admin)) [
    | inl super ↦ rw super (inl super)
    | inr plain ↦ elim (Bool-cases (text_eq rec.org_id c.org_id)) [
      | inl own ↦ rw (plain, own) (inr (inl own))
      | inr foreign ↦ rw (plain, foreign) tt
    ]
  ]

  look_up-IsVisible : (c : Claims) (o : Option Text) (s : Scans) → IsVisible c (look_up O c o s)
  unfolding look_up IsVisible
  look_up-IsVisible c none s = tt
  look_up-IsVisible c (some id) s = found_scan-IsVisible c (O.get_scan id s)

  -- A list with a filter holds scans of that organization only.
  unfoldable pub FiltersByOrg : Type 0
  FiltersByOrg =
      (vin org : Text) (n : ℕ) (s t : Scans) (recs : List (ScanRecord F))
      → O.list_scans_by_vin vin (some org) n s ≡ (holds recs, t)
      → All (λ (r : ScanRecord F). r.org_id ≡ org) recs

  super_admin-IsOwn :
      (c : Claims) (recs : List (ScanRecord F))
      → text_eq c.role super_admin ≡ true
      → All (IsOwn c) recs
  unfolding IsOwn
  super_admin-IsOwn c [] super = tt
  super_admin-IsOwn c (r ∷ recs) super = (inl super, super_admin-IsOwn c recs super)

  listed-IsVisible :
      (c : Claims) (vin : Text) (m : Stored (List (ScanRecord F)) × Scans)
      → ((recs : List (ScanRecord F)) (t : Scans) → m ≡ (holds recs, t) → All (IsOwn c) recs)
      → IsVisible c (listed O vin m)
  unfolding listed IsVisible
  listed-IsVisible c vin (erred e, s) own = tt
  listed-IsVisible c vin (holds recs, s) own = own recs s refl

  list_own-IsVisible :
      (c : Claims) (vin : Text) (o : Option Text) (s : Scans)
      → FiltersByOrg
      → parse_uuid c.org_id ≡ o
      → IsVisible c (list_own O vin o s)
  unfolding list_own FiltersByOrg IsOwn IsVisible
  list_own-IsVisible c vin none s filters e = tt
  list_own-IsVisible c vin (some org) s filters e =
      listed-IsVisible c vin (O.list_scans_by_vin vin (some org) 50 s) λ recs t h.
        All-imp (λ (r : ScanRecord F). r.org_id ≡ org) (IsOwn c)
          (λ r same. inr (inr (e ∙ ap (λ (x : Text). some x) (sym same)))) recs
          (filters vin org 50 s t recs h)

  -- Where the store's filter by organization holds, getScan and listVehicleScans show scans of the
  -- caller's own organization only, unless the caller is a super_admin.
  pub scans-IsVisible :
      (c : Claims) (raw vin : Text) (s : Scans)
      → FiltersByOrg
      → IsVisible c (get_scan O c raw s) × IsVisible c (list_vehicle_scans O c vin s)
  unfolding list_vehicle_scans get_scan IsOwn
  scans-IsVisible c raw vin s filters = (
    look_up-IsVisible c (parse_uuid raw) s,
    elim (Bool-cases (text_eq c.role super_admin)) [
      | inl super ↦ rw super (
          listed-IsVisible c vin (O.list_scans_by_vin vin none 50 s)
            (λ recs t h. super_admin-IsOwn c recs super))
      | inr plain ↦ rw plain (list_own-IsVisible c vin (parse_uuid c.org_id) s filters refl)
    ],
  )
