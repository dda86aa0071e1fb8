-- ===== src/Store/Knowledge/Private.antt =====
-- What the scans of other organizations do to a query that is limited to one (internal/store/
-- store.go: ListScansByVIN, LatestDTCsForVIN, LatestObservationsForVIN, DTCCoOccurrence,
-- ExplainCode).
pub mod Methods
use mechmind.Base.{
  ℕ, keep, Bool-cases, Option-cases, take, ◌∙◌, ◌-◌, ◌≡◌, refl, sym, ap, inl, inr, Bool, true,
  false, ◌&&◌, Option, none, some, List, [], ◌∷◌, arith,
}
use mechmind.Base.Sort.{sort_by}
use mechmind.Text.{Text, text_eq}
use mechmind.Obd.Types.{Dtc}
use mechmind.Store.Accounts.{and_then, find_row, ran}
use mechmind.Store.{Stored, erred, holds}
use mechmind.Store.Tables.{
  Vehicle, SessionRow, DtcRow, Tables, Server, Kept, has_vin, has_vehicle_id, query, after_query,
}
use mechmind.Store.Sessions.{joined, in_org, newer, rows_by_vin}
use mechmind.Store.Knowledge.{newer_hit, history_rows, fits_vin, focus_scans, co_occurring, noted}

-- The tables without the scans of other organizations.
unfoldable pub own : Text → Tables → Tables
unfolding in_org
own org t = record t { sessions = keep (in_org (some org)) t.sessions }

-- Without the scans of other organizations a method returns the same, and does the same.
unfoldable pub IsPrivate : {A : Type 0} → Text → (Tables → Kept A) → Type 0
unfolding own
IsPrivate org run = (t : Tables) → run (own org t) ≡ ((run t).0, own org (run t).1)

module _ {A : Type 0} (p : A → Bool) where
  keep-pass : (x : A) (xs : List A) → p x ≡ true → keep p (x ∷ xs) ≡ x ∷ keep p xs
  keep-pass x xs h = ground arith

  keep-miss : (x : A) (xs : List A) → p x ≡ false → keep p (x ∷ xs) ≡ keep p xs
  keep-miss x xs h = ground arith

  keep-cons : (x : A) (xs ys : List A) → keep p xs ≡ keep p ys → keep p (x ∷ xs) ≡ keep p (x ∷ ys)
  keep-cons x xs ys h = ground arith

  keep-keep : (xs : List A) → keep p (keep p xs) ≡ keep p xs
  keep-keep [] = refl
  keep-keep (x ∷ xs) = elim (Bool-cases (p x)) [
    | inl pass ↦
        ap (keep p) (keep-pass x xs pass)
        ∙ keep-pass x (keep p xs) pass
        ∙ ap (λ ys. x ∷ ys) (keep-keep xs)
        ∙ sym (keep-pass x xs pass)
    | inr miss ↦ ap (keep p) (keep-miss x xs miss) ∙ keep-keep xs ∙ sym (keep-miss x xs miss)
  ]

-- A test that only scans of the organization pass keeps the same joined rows.
keep-joined :
    (org : Text) (q : SessionRow × Vehicle → Bool) (vs : List Vehicle)
    → ((s : SessionRow) (v : Vehicle) → in_org (some org) s ≡ false → q (s, v) ≡ false)
    → (ss : List SessionRow)
    → keep q (joined vs (keep (in_org (some org)) ss)) ≡ keep q (joined vs ss)
unfolding joined
keep-joined org q vs only [] = refl
keep-joined org q vs only (s ∷ ss) =
    let rest = keep-joined org q vs only ss in
    let mine = in_org (some org) in
    elim (Bool-cases (in_org (some org) s)) [
      | inl pass ↦
          ap (λ xs. keep q (joined vs xs)) (keep-pass mine s ss pass)
          ∙ elim (Option-cases (find_row (has_vehicle_id s.vehicle_id) vs)) [
            | inl none_found ↦ rw none_found rest
            | inr (v, found) ↦
                rw found (keep-cons q (s, v) (joined vs (keep mine ss)) (joined vs ss) rest)
          ]
      | inr miss ↦
          ap (λ xs. keep q (joined vs xs)) (keep-miss mine s ss miss)
          ∙ rest
          ∙ elim (Option-cases (find_row (has_vehicle_id s.vehicle_id) vs)) [
            | inl none_found ↦ rw none_found refl
            | inr (v, found) ↦ rw found (sym (keep-miss q (s, v) (joined vs ss) (only s v miss)))
          ]
    ]

and_false : (b : Bool) → b && false ≡ false
and_false true = refl
and_false false = refl

pub rows_by_vin-own :
    (vin org : Text) (t : Tables)
    → rows_by_vin vin (some org) (own org t) ≡ rows_by_vin vin (some org) t
unfolding rows_by_vin own
rows_by_vin-own vin org t = ap (sort_by newer) (
    keep-joined org (λ (p : SessionRow × Vehicle). has_vin vin p.1 && in_org (some org) p.0)
      t.vehicles (λ s v miss. rw miss (and_false (has_vin vin v))) t.sessions)

pub history_rows-own :
    (code vin org : Text) (t : Tables)
    → history_rows code vin (some org) (own org t) ≡ history_rows code vin (some org) t
unfolding history_rows own
history_rows-own code vin org t =
    ap
      (λ ps.
        take 10 (sort_by newer_hit (noted (λ (r : DtcRow). text_eq r.code code) t.dtc_rows ps)))
      (keep-joined org (λ (p : SessionRow × Vehicle). in_org (some org) p.0 && fits_vin vin p)
        t.vehicles (λ s v miss. rw miss refl) t.sessions)

pub co_occurring-own :
    {F : Type 0} (G : Server F) (focus org : Text) (limit : ℕ) (t : Tables)
    → co_occurring G focus (some org) limit (own org t) ≡ co_occurring G focus (some org) limit t
unfolding co_occurring own
co_occurring-own G focus org limit t = rw (keep-keep (in_org (some org)) t.sessions) refl

-- Methods that are private, one after another.
pub and_then-IsPrivate :
    {A B : Type 0} (org : Text) (m n : Kept A) (k : A → Tables → Kept B)
    → n ≡ (m.0, own org m.1)
    → ((a : A) → IsPrivate org (k a))
    → and_then n k ≡ ((and_then m k).0, own org (and_then m k).1)
unfolding IsPrivate
and_then-IsPrivate org (erred e, t) n k same h = rw same refl
and_then-IsPrivate org (holds a, t) n k same h = rw same (h a t)

ran-IsPrivate :
    {A : Type 0} (org : Text) (o : Option Text) (run : Tables → Kept A) (t : Tables)
    → IsPrivate org run
    → ran o run (own org t) ≡ ((ran o run t).0, own org (ran o run t).1)
unfolding IsPrivate
ran-IsPrivate org none run t h = h t
ran-IsPrivate org (some e) run t h = refl

pub query-IsPrivate :
    {F A : Type 0} (G : Server F) (org : Text) (run : Tables → Kept A)
    → IsPrivate org run
    → IsPrivate org (query G run)
unfolding query IsPrivate own
query-IsPrivate G org run h t =
    ran-IsPrivate org (G.postgres.fault t.statements) run (after_query t) h
