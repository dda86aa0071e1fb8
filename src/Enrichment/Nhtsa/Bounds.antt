-- ===== src/Enrichment/Nhtsa/Bounds.antt =====
-- The size of what is kept of NHTSA's answers (internal/enrichment/nhtsa.go: truncate,
-- RecallsByMMY).

use mechmind.Base.{
  is_some, ℕ, take, All, Bool-cases, length-append, length-take, ◌+◌, ◌-◌, ◌≤◌, ◌≡◌, inl, inr,
  false, ◌&&◌, Option, none, some, List, [], ◌∷◌, ◌++◌, arith, length,
}
use mechmind.Base.Int.{ℤ}
use mechmind.Base.Float.{Floats}
use mechmind.Text.{show_int, Text, codes, text_eq, fields, join}
use mechmind.Http.{trim_slashes, Result, fails, gives}
use mechmind.Enrichment.Nhtsa.{
  truncate, LeanRecall, Object, Network, Client, Fetched, says_none, or_no_text, or_failed,
  or_none_found,
}
use mechmind.Enrichment.Nhtsa.Methods.{
  campaign_of, lean_recall, lean_recalls, recalls_in, recalls_from, recalls_by_mmy, get_bytes,
  first_str,
}

-- `…` takes two bytes more than the byte that it stands for.
length-truncate : (s : Text) (n : ℕ) → 1 ≤ n → length (truncate s n) ≤ n + 2
unfolding truncate
length-truncate s n h =
    let t = join (fields s) (codes " ") in
    ground (arith, length-append (take (n - 1) t) (codes "…"), length-take (n - 1) t)

-- A recall has its campaign, and its texts are short.
pub record IsLeanRecall (r : LeanRecall) : Type 0 where
  pub named : text_eq r.campaign_number [] ≡ false
  pub component : length r.component ≤ 122
  pub summary : length r.summary ≤ 282
  pub consequence : length r.consequence ≤ 202
  pub remedy : length r.remedy ≤ 202

-- What is said of a result.
pub AllLean : Result (List LeanRecall) → Type 0
AllLean (fails e) = Unit
AllLean (gives rs) = All IsLeanRecall rs

module _ (R : Floats) (N : Network R.F) where
  open R use {F}

  lean_recall-IsLeanRecall :
      (r : Object F)
      → text_eq (campaign_of R N r) [] ≡ false
      → IsLeanRecall (lean_recall R N r (campaign_of R N r))
  unfolding lean_recall
  lean_recall-IsLeanRecall r named = record {
    named = named;
    component =
        length-truncate (first_str R N r (codes "Component" ∷ codes "component" ∷ [])) 120
          (omega arith);
    summary =
        length-truncate (first_str R N r (codes "Summary" ∷ codes "summary" ∷ [])) 280
          (omega arith);
    consequence =
        length-truncate
          (first_str R N r (codes "Conequence" ∷ codes "Consequence" ∷ codes "consequence" ∷ []))
          200 (omega arith);
    remedy =
        length-truncate (first_str R N r (codes "Remedy" ∷ codes "remedy" ∷ [])) 200 (omega arith);
  }

  lean_recalls-IsLeanRecall : (rs : List (Object F)) → All IsLeanRecall (lean_recalls R N rs)
  unfolding lean_recalls
  lean_recalls-IsLeanRecall [] = tt
  lean_recalls-IsLeanRecall (r ∷ rs) = elim (Bool-cases (text_eq (campaign_of R N r) [])) [
    | inl blank ↦ rw blank (lean_recalls-IsLeanRecall rs)
    | inr named ↦ rw named (lean_recall-IsLeanRecall r named, lean_recalls-IsLeanRecall rs)
  ]

  recalls_in-AllLean :
      (body : Text) (m : Result (List (Object F))) → AllLean (recalls_in R N body m)
  unfolding recalls_in AllLean
  recalls_in-AllLean body (fails e) = tt
  recalls_in-AllLean body (gives []) =
      lean_recalls-IsLeanRecall (or_none_found (N.read_results body))
  recalls_in-AllLean body (gives (r ∷ rs)) = lean_recalls-IsLeanRecall (r ∷ rs)

  or_failed-AllLean :
      (o : Option Text) (m : Result (List LeanRecall)) → AllLean m → AllLean (or_failed o m)
  unfolding AllLean
  or_failed-AllLean none m h = h
  or_failed-AllLean (some e) m h = tt

  recalls_from-AllLean : (f : Fetched) → AllLean (recalls_from R N f)
  unfolding recalls_from AllLean
  recalls_from-AllLean f = elim (Bool-cases (is_some f.error && says_none f)) [
    | inl nothing ↦ rw nothing tt
    | inr real ↦
        let body = or_no_text f.body in
        rw real (
          or_failed-AllLean f.error (recalls_in R N body (N.read_recalls body))
            (recalls_in-AllLean body (N.read_recalls body)))
  ]

  -- Each recall that is fetched names its campaign, and its texts have at most 122, 282, 202 and
  -- 202 bytes.
  pub recalls_by_mmy-AllLean :
      (c : Client) (make model : Text) (year : ℤ) (w : N.World)
      → AllLean (recalls_by_mmy R N c make model year w).0
  unfolding recalls_by_mmy
  recalls_by_mmy-AllLean c make model year w =
      recalls_from-AllLean
        (get_bytes R N
          (trim_slashes c.nhtsa_base
            ++ codes "/recalls/recallsByVehicle?"
            ++ N.encode make model (show_int year))
          w).0
