-- ===== src/Store/Sessions/Lists.antt =====
-- The list of a vehicle's scans (internal/store/store.go: ListScansByVIN).
use mechmind.Obd.Types.{Dtc}
use mathlib.Core.Path.{subst}
use Prim.Native.Nat.{min}
use mechmind.Base.{
  both, ◌∙◌, sym, drop, ◌++◌, Option-cases, ℕ, All, All-imp, All-take, keep, keep-All, length-take,
  length-map, take, zero, suc, ◌≡◌, refl, ap, inl, inr, Bool, true, false, ◌&&◌, Option, none, some,
  List, [], ◌∷◌, map, arith, leb, length,
}
use mechmind.Base.Sort.{insert_by, sort_by, sort_by-All, length-sort_by, sort_by-IsSorted, IsSorted}
use mechmind.Text.{Text, text_eq}
use mechmind.Text.Laws.{text_eq_iff}
use mechmind.Store.{holds}
use mechmind.Store.Tables.{Vehicle, SessionRow, DtcRow, Tables, Server, has_vin, query, after_query}
use mechmind.Store.Tables.Gives.{Gives, Gives-imp, and_then-Gives, query-Gives}
use mechmind.Store.Sessions.{joined, in_org, newer, rows_by_vin, limit_or, scan_record}
use mechmind.Store.Sessions.Read.{with_dtcs, list_dtcs, fill_dtcs, list_scans_by_vin, dtcs_of}
use mechmind.Api.{ScanRecord}

newer_total : (p q : SessionRow × Vehicle) → newer p q ≡ false → newer q p ≡ true
unfolding newer
newer_total (a, v) (b, w) h = ground arith

newer_trans :
    (p q r : SessionRow × Vehicle) → newer p q ≡ true → newer q r ≡ true → newer p r ≡ true
unfolding newer
newer_trans (a, v) (b, w) (c, x) h k = ground arith

map-map :
    {A B C : Type 0} (g : B → C) (f : A → B) (xs : List A)
    → map g (map f xs) ≡ map (λ x. g (f x)) xs
map-map g f [] = refl
map-map g f (x ∷ xs) = ap (λ ys. g (f x) ∷ ys) (map-map g f xs)

All-map :
    {A B : Type 0} (P : B → Type 0) (f : A → B) (xs : List A)
    → All (λ x. P (f x)) xs
    → All P (map f xs)
All-map P f [] h = tt
All-map P f (x ∷ xs) (px, h) = (px, All-map P f xs h)

IsSorted-map :
    {A B : Type 0} (le : B → B → Bool) (f : A → B) (xs : List A)
    → IsSorted (λ x y. le (f x) (f y)) xs
    → IsSorted le (map f xs)
IsSorted-map le f [] h = tt
IsSorted-map le f (x ∷ xs) (below, h) =
    (All-map (λ y. le (f x) y ≡ true) f xs below, IsSorted-map le f xs h)

-- Sorting keeps how many rows pass a test.
count-insert_by :
    {A B : Type 0} (le : A → A → Bool) (f : A → B) (p : B → Bool) (x : A) (xs : List A)
    → length (keep p (map f (insert_by le x xs))) ≡ length (keep p (map f (x ∷ xs)))
unfolding insert_by
count-insert_by le f p x [] = refl
count-insert_by le f p x (y ∷ ys) = ground (arith, count-insert_by le f p x ys)

count-sort_by :
    {A B : Type 0} (le : A → A → Bool) (f : A → B) (p : B → Bool) (xs : List A)
    → length (keep p (map f (sort_by le xs))) ≡ length (keep p (map f xs))
unfolding sort_by
count-sort_by le f p [] = refl
count-sort_by le f p (x ∷ xs) =
    count-insert_by le f p x (sort_by le xs) ∙ ground (arith, count-sort_by le f p xs)

-- The scans of a VIN and of an organization, where one is given, with their vehicles.
unfoldable pub matching : Text → Option Text → Tables → List (SessionRow × Vehicle)
unfolding joined has_vin in_org
matching vin org t =
    keep (λ (p : SessionRow × Vehicle). has_vin vin p.1 && in_org org p.0)
      (joined t.vehicles t.sessions)

rows_by_vin-after_query :
    (vin : Text) (org : Option Text) (t : Tables)
    → rows_by_vin vin org (after_query t) ≡ rows_by_vin vin org t
unfolding rows_by_vin
rows_by_vin-after_query vin org t = refl

module _ {F : Type 0} where
  -- Whether a scan may stand before another in a list, by the time of its start.
  unfoldable pub no_older : ScanRecord F → ScanRecord F → Bool
  no_older a b = leb b.started_at a.started_at

  -- A scan of this VIN, and of this organization where one is given.
  unfoldable pub IsOf : Text → Option Text → ScanRecord F → Type 0
  IsOf vin none r = r.vin ≡ vin
  IsOf vin (some org) r = (r.vin ≡ vin) × (r.org_id ≡ org)

  own-IsOf :
      (vin : Text) (org : Option Text) (p : SessionRow × Vehicle) (ds : List (Dtc F))
      → has_vin vin p.1 && in_org org p.0 ≡ true
      → IsOf vin org (record (scan_record p) { dtcs = ds })
  unfolding IsOf scan_record has_vin in_org
  own-IsOf vin none (s, v) ds h = (text_eq_iff v.vin vin).0 (both (text_eq v.vin vin) true h).0
  own-IsOf vin (some org) (s, v) ds h =
      let (by_vin, by_org) = both (text_eq v.vin vin) (text_eq s.org_id org) h in
      ((text_eq_iff v.vin vin).0 by_vin, (text_eq_iff s.org_id org).0 by_org)

module _ {F : Type 0} (G : Server F) where
  open G use {postgres}

  -- A scan with the codes among the rows.
  unfoldable pub with_codes : List DtcRow → ScanRecord F → ScanRecord F
  unfolding dtcs_of
  with_codes rows r = record r { dtcs = dtcs_of G r.id rows }

  with_dtcs-Gives :
      (r : ScanRecord F) (t : Tables)
      → Gives (λ s u. (s ≡ with_codes t.dtc_rows r) × (u.dtc_rows ≡ t.dtc_rows)) (with_dtcs G r t)
  unfolding with_dtcs list_dtcs query with_codes
  with_dtcs-Gives r t = elim (Option-cases (postgres.fault t.statements)) [
    | inl fine ↦ rw fine (refl, refl)
    | inr (e, bad) ↦ rw bad tt
  ]

  fill_dtcs-Gives :
      (rs : List (ScanRecord F)) (t : Tables)
      → Gives
          (λ out u. (out ≡ map (with_codes t.dtc_rows) rs) × (u.dtc_rows ≡ t.dtc_rows))
          (fill_dtcs G rs t)
  unfolding fill_dtcs
  fill_dtcs-Gives [] t = (refl, refl)
  fill_dtcs-Gives (r ∷ rs) t =
      and_then-Gives (λ s u. (s ≡ with_codes t.dtc_rows r) × (u.dtc_rows ≡ t.dtc_rows)) _
        (with_dtcs G r t) _ (with_dtcs-Gives r t)
        λ s u (same, rows).
          and_then-Gives
            (λ out w. (out ≡ map (with_codes u.dtc_rows) rs) × (w.dtc_rows ≡ u.dtc_rows)) _
            (fill_dtcs G rs u) _ (fill_dtcs-Gives rs u)
            λ out w (rest, rows2). (rw (same, rest, rows) refl, rows2 ∙ rows)

  -- The rows of the query as records.
  unfoldable pub as_records : List DtcRow → List (SessionRow × Vehicle) → List (ScanRecord F)
  unfolding with_codes scan_record
  as_records rows ps = map (with_codes rows) (map scan_record ps)

  -- What a list of scans is: together with the `rest` that the limit leaves out, it is all the
  -- scans that match, each as often as it is there and the newest first.
  pub record IsListed (vin : Text) (org : Option Text) (limit : ℕ) (t : Tables)
      (recs : List (ScanRecord F)) : Type 0 where
    pub rest : List (ScanRecord F)
    pub own : All (IsOf vin org) recs
    pub order : IsSorted no_older (recs ++ rest)
    pub counted :
        (p : ScanRecord F → Bool)
        → length (keep p (recs ++ rest))
          ≡ length (keep p (as_records t.dtc_rows (matching vin org t)))
    pub size : length recs ≡ min limit (length (matching vin org t))

  as_records_parts :
      (n : ℕ) (rows : List DtcRow) (ps : List (SessionRow × Vehicle))
      → as_records rows (take n ps) ++ as_records rows (drop n ps)
        ≡ map (λ p. with_codes rows (scan_record p)) ps
  unfolding as_records
  as_records_parts zero rows ps = map-map (with_codes rows) scan_record ps
  as_records_parts (suc n) rows [] = refl
  as_records_parts (suc n) rows (p ∷ ps) =
      ap (λ rs. with_codes rows (scan_record p) ∷ rs) (as_records_parts n rows ps)

  as_records-IsListed :
      (vin : Text) (org : Option Text) (n : ℕ) (t : Tables)
      → IsListed vin org n t (as_records t.dtc_rows (take n (rows_by_vin vin org t)))
  unfolding as_records rows_by_vin with_codes scan_record no_older newer matching
  as_records-IsListed vin org n t =
      let rows = t.dtc_rows in
      let chosen = λ (p : SessionRow × Vehicle). has_vin vin p.1 && in_org org p.0 in
      let found = matching vin org t in
      let all = rows_by_vin vin org t in
      let f = λ (p : SessionRow × Vehicle). with_codes rows (scan_record p) in
      record {
        rest = as_records rows (drop n all);
        own = All-map (IsOf vin org) (with_codes rows) (map scan_record (take n all)) (
            All-map (λ r. IsOf vin org (with_codes rows r)) scan_record (take n all)
              (All-take _ n all (
                sort_by-All newer _ found (
                  All-imp (λ p. chosen p ≡ true)
                    (λ p. IsOf vin org (with_codes rows (scan_record p)))
                    (λ p h. own-IsOf vin org p (dtcs_of G p.0.id rows) h) found
                    (keep-All chosen (joined t.vehicles t.sessions))))));
        order =
            subst (IsSorted no_older) (sym (as_records_parts n rows all))
              (IsSorted-map no_older f all (sort_by-IsSorted newer newer_total newer_trans found));
        counted = λ p.
            ap (λ rs. length (keep p rs)) (as_records_parts n rows all)
            ∙ count-sort_by newer f p found
            ∙ ap (λ rs. length (keep p rs)) (sym (map-map (with_codes rows) scan_record found));
        size =
            length-map (with_codes rows) (map scan_record (take n all))
            ∙ length-map scan_record (take n all)
            ∙ length-take n all
            ∙ ap (min n) (length-sort_by newer found);
      }

  -- A list of scans is the beginning, as long as the limit allows, of all the scans of the VIN, and
  -- of the organization where one is given, each as often as it is there and the newest first; the
  -- limit is 20 where it is not positive.
  pub list_scans_by_vin-IsListed :
      (vin : Text) (org : Option Text) (limit : ℕ) (t : Tables)
      → Gives
          (λ recs u. IsListed vin org (limit_or 20 limit) t recs)
          (list_scans_by_vin G vin org limit t)
  unfolding list_scans_by_vin as_records
  list_scans_by_vin-IsListed vin org limit t =
      let n = limit_or 20 limit in
      and_then-Gives (λ rows u. (rows ≡ take n (rows_by_vin vin org t)) × (u.dtc_rows ≡ t.dtc_rows))
        _ (query G (λ u. (holds (take n (rows_by_vin vin org u)), u)) t) _
        (query-Gives G
          (λ rows u. (rows ≡ take n (rows_by_vin vin org t)) × (u.dtc_rows ≡ t.dtc_rows)) _ t
          (ap (take n) (rows_by_vin-after_query vin org t), refl))
        λ rows u (same, noted).
          Gives-imp (λ out w. (out ≡ as_records u.dtc_rows rows) × (w.dtc_rows ≡ u.dtc_rows))
            (λ out w. IsListed vin org n t out) (fill_dtcs G (map scan_record rows) u)
            (fill_dtcs-Gives (map scan_record rows) u)
            λ out w (e, _). rw (e, same, noted) (as_records-IsListed vin org n t)
