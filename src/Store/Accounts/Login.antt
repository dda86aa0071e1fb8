-- ===== src/Store/Accounts/Login.antt =====
-- Logins, and those of new members (internal/store/store.go: Authenticate).
use mechmind.Text.Laws.{text_eq_refl}
use mechmind.Store.Accounts.Outcome.{IsMember, register_technician-IsRegistered, IsRegistered}
use mechmind.Store.Accounts.Register.{register_technician, RegisterInput}
use mechmind.Store.Accounts.{
  Made, hash_password, or_missing, returned, statement, check_technician, has_email,
  get_technician_by_email, authenticate, find_row,
}
use mechmind.Store.{erred, StoreError, holds, Organization, Technician, Db, Postgres}
use mechmind.Base.{
  ◌∙◌, ◌∙◌, Option-cases, some_inj, some_none, Bool-cases, ◌≡◌, refl, sym, ap, inl, inr, Bool, true,
  Option, none, some, List, [], ◌∷◌, ◌++◌, ltb, length,
}
use mechmind.Text.{Text, text_eq}

erred_holds {ℓ} : {A : Type 0} {B : Type ℓ} {e : StoreError} {a : A} → erred e ≡ holds a → B
erred_holds h = cc

pub holds_inj : {A : Type 0} {a b : A} → holds a ≡ holds b → a ≡ b
holds_inj h = cc

find_row-passes :
    {A : Type 0} (p : A → Bool) (xs : List A) (x : A) → find_row p xs ≡ some x → p x ≡ true
find_row-passes p [] x h = cc
find_row-passes p (y ∷ xs) x h = elim (Bool-cases (p y)) [
  | inl hit ↦ rw⁻¹ (some_inj (rw hit at h)) hit
  | inr miss ↦ find_row-passes p xs x (rw miss at h)
]

find_row-append :
    {A : Type 0} (p : A → Bool) (xs : List A) (x : A)
    → find_row p xs ≡ none
    → p x ≡ true
    → find_row p (xs ++ x ∷ []) ≡ some x
find_row-append p [] x free hit = rw hit refl
find_row-append p (y ∷ xs) x free hit = elim (Bool-cases (p y)) [
  | inl first ↦ some_none (sym (rw first at free))
  | inr miss ↦ rw miss (find_row-append p xs x (rw miss at free) hit)
]

module _ (G : Postgres) where
  -- A row that may log in with this email and password.
  pub MayLogIn : Text → Text → Db → Technician → Type 0
  MayLogIn email password db t =
      (find_row (has_email email) db.technicians ≡ some t)
      × (text_eq t.email email ≡ true)
      × (t.active ≡ true)
      × (G.compare_hash t.password_hash password ≡ true)

  check_technician-holds :
      (password : Text) (o : Option Technician) (t : Technician)
      → check_technician G password (or_missing o) ≡ holds t
      → (o ≡ some t) × (t.active ≡ true) × (G.compare_hash t.password_hash password ≡ true)
  unfolding check_technician
  check_technician-holds password none t h = erred_holds h
  check_technician-holds password (some u) t h = elim (Bool-cases u.active) [
    | inr off ↦ erred_holds (rw off at h)
    | inl on ↦ elim (Bool-cases (G.compare_hash u.password_hash password)) [
      | inr wrong ↦ erred_holds (rw (on, wrong) at h)
      | inl right ↦
          let same = holds_inj (simp (on, right) at h) in
          (ap (λ (x : Technician). some x) same, rw⁻¹ same on, rw⁻¹ same right)
    ]
  ]

  -- Whoever logs in has the row of that email, is active and gave the password of the row.
  pub authenticate-MayLogIn :
      (email password : Text) (db : Db) (t : Technician)
      → (authenticate G email password db).0 ≡ holds t
      → MayLogIn email password db t
  unfolding authenticate get_technician_by_email check_technician statement MayLogIn has_email
  authenticate-MayLogIn email password db t h = elim (Option-cases (G.fault db.statements)) [
    | inr (e, bad) ↦ erred_holds (rw bad at h)
    | inl fine ↦
        let (found, on, right) =
          check_technician-holds password (find_row (has_email email) db.technicians) t
            (rw fine at h) in
        (found, find_row-passes (has_email email) db.technicians t found, on, right)
  ]

  hash_password-compare :
      (p h : Text)
      → ((q k : Text) → G.generate q ≡ holds k → G.compare_hash k q ≡ true)
      → hash_password G p ≡ holds h
      → G.compare_hash h p ≡ true
  unfolding hash_password
  hash_password-compare p h sound e = elim (Bool-cases (ltb (length p) 8)) [
    | inl short ↦ erred_holds (rw short at e)
    | inr long ↦ sound p h (rw long at e)
  ]

  -- What logs the member in: the new row, active and with a hash of the password.
  IsRegistered-authenticate :
      (reg : RegisterInput) (before : Db) (m : Made (Technician × Organization)) (t : Technician)
      (o : Organization)
      → ((p h : Text) → G.generate p ≡ holds h → G.compare_hash h p ≡ true)
      → IsRegistered G reg before m
      → m.0 ≡ holds (t, o)
      → G.fault m.1.statements ≡ none
      → (row : Technician) × ((authenticate G reg.email reg.password m.1).0 ≡ holds row)
        × (returned row ≡ t)
  unfolding authenticate get_technician_by_email check_technician statement has_email IsRegistered
      IsMember
  IsRegistered-authenticate reg before (erred e, d) t o sound made h fine = erred_holds h
  IsRegistered-authenticate reg before (holds (u, v), d) t o sound
        (row, rows, free, (ret, email, on, org, role, hashed)) h fine =
      let hit : has_email reg.email row ≡ true = rw email (text_eq_refl reg.email) in
      let right = hash_password-compare reg.password row.password_hash sound hashed in
      let there = find_row-append (has_email reg.email) before.technicians row free hit in
      (
        row,
        rw fine (rw (rows, there) (simp (on, right) refl)),
        ret ∙ ap (λ (x : Technician × Organization). x.0) (holds_inj h),
      )

  -- After a registration its email and password log in the new member, where the next statement
  -- does not fail and bcrypt accepts the password of a hash that it made.
  pub register_technician-authenticate :
      (reg : RegisterInput) (db : Db) (t : Technician) (o : Organization)
      → ((p h : Text) → G.generate p ≡ holds h → G.compare_hash h p ≡ true)
      → (register_technician G reg db).0 ≡ holds (t, o)
      → G.fault (register_technician G reg db).1.statements ≡ none
      → (row : Technician) × ((authenticate G reg.email reg.password
            (register_technician G reg db).1).0
          ≡ holds row)
        × (returned row ≡ t)
  register_technician-authenticate reg db t o sound h fine =
      IsRegistered-authenticate reg db (register_technician G reg db) t o sound
        (register_technician-IsRegistered G reg db) h fine
