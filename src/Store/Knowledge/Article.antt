-- ===== src/Store/Knowledge/Article.antt =====
-- The article of a code (internal/store/store.go: ExplainCode).
pub mod Cases
use mechmind.Store.Knowledge.Article.Cases.{
  either, or-left, or-right, case_rank-tests, not-text_eq, not-text_eq_inv,
}
use mathlib.Core.Path.{subst}
use mechmind.Base.{
  ℕ, not, ◌&&◌, ◌||◌, ◌⊎◌, inl, inr, Bool-cases, both, if◌then◌else◌, ◌∙◌, All-imp, All, keep,
  keep-All, length, ◌≤◌, ◌≡◌, refl, sym, ap, Bool, true, false, Option, none, some, List, [], ◌∷◌,
  arith, leb,
}
use mechmind.Base.Sort.{
  sort_by, sort_by-All, sort_by-All_inv, sort_by-IsSorted, IsSorted, length-sort_by,
}
use mechmind.Text.{Text, codes, text_eq}
use mechmind.Text.Laws.{text_eq_iff}
use mechmind.Explain.Packet.{KnowledgeArticle}
use mechmind.Store.Tables.{Tables, Server}
use mechmind.Store.Sessions.{first_row}
use mechmind.Store.Knowledge.{article_rank, article_fits, article_for}

empty : {A : Type 0} (xs : List A) → length xs ≡ 0 → xs ≡ []
empty [] h = refl
empty (x ∷ xs) h = absurd (omega (arith, h))

cons_nil : {A B : Type 0} {x : A} {xs : List A} → x ∷ xs ≡ [] → B
cons_nil h = cc

module _ {F : Type 0} (G : Server F) where
  -- The article is for the code, and for the make, for the model, or for all vehicles; any article
  -- of
  -- the code will do where neither is known.
  Serves : Text → Text → Text → KnowledgeArticle → Type 0
  Serves code make model a =
      (a.code ≡ code)
      × ((a.vehicle_scope ≡ codes "*")
          ⊎ ((G.upper a.vehicle_scope ≡ G.upper make)
              ⊎ ((G.upper a.vehicle_scope ≡ G.upper model) ⊎ ((make ≡ []) × (model ≡ [])))))

  -- The article is for a model, or a make, that is known.
  IsForName : Text → KnowledgeArticle → Type 0
  IsForName name a = ¬ (name ≡ []) × (G.upper a.vehicle_scope ≡ G.upper name)

  -- Of two articles the second is not the better one: one for the model comes before one for the
  -- make, that before one for all vehicles, and that before any other.
  IsNoWorse : Text → Text → KnowledgeArticle → KnowledgeArticle → Type 0
  IsNoWorse make model a b =
      (IsForName model b → IsForName model a)
      × (IsForName make b → IsForName model a ⊎ IsForName make a)
      × (b.vehicle_scope ≡ codes "*"
          → IsForName model a ⊎ (IsForName make a ⊎ (a.vehicle_scope ≡ codes "*")))

  IsRankBest : Text → Text → Text → List KnowledgeArticle → Option KnowledgeArticle → Type 0
  IsRankBest code make model articles none = keep (article_fits G code make model) articles ≡ []
  IsRankBest code make model articles (some a) =
      (article_fits G code make model a ≡ true)
      × All (λ (b : KnowledgeArticle). article_rank G make model a ≤ article_rank G make model b)
          (keep (article_fits G code make model) articles)

  ranked : Text → Text → KnowledgeArticle → KnowledgeArticle → Bool
  ranked make model a b = leb (article_rank G make model a) (article_rank G make model b)

  ranked_refl : (make model : Text) (a : KnowledgeArticle) → ranked make model a a ≡ true
  unfolding ranked
  ranked_refl make model a = ground arith

  ranked-le :
      (make model : Text) (a b : KnowledgeArticle)
      → ranked make model a b ≡ true
      → article_rank G make model a ≤ article_rank G make model b
  unfolding ranked
  ranked-le make model a b h = ground arith

  ranked_total :
      (make model : Text) (a b : KnowledgeArticle)
      → ranked make model a b ≡ false
      → ranked make model b a ≡ true
  unfolding ranked
  ranked_total make model a b h = ground arith

  ranked_trans :
      (make model : Text) (a b c : KnowledgeArticle)
      → ranked make model a b ≡ true
      → ranked make model b c ≡ true
      → ranked make model a c ≡ true
  unfolding ranked
  ranked_trans make model a b c h k = ground arith

  first_row-IsRankBest :
      (code make model : Text) (articles sorted : List KnowledgeArticle)
      → sort_by (ranked make model) (keep (article_fits G code make model) articles) ≡ sorted
      → IsRankBest code make model articles (first_row sorted)
  unfolding IsRankBest ranked
  first_row-IsRankBest code make model articles [] e =
      empty (keep (article_fits G code make model) articles) (
        sym (length-sort_by (ranked make model) (keep (article_fits G code make model) articles))
        ∙ ap length e)
  first_row-IsRankBest code make model articles (a ∷ rest) e =
      let fits = article_fits G code make model in
      let le = ranked make model in
      let good = λ (b : KnowledgeArticle). fits b ≡ true in
      let found = keep fits articles in
      let passing = subst (All good) e (sort_by-All le good found (keep-All fits articles)) in
      let order =
        subst (IsSorted le) e
          (sort_by-IsSorted le (ranked_total make model) (ranked_trans make model) found) in
      (
        passing.0,
        All-imp (λ b. le a b ≡ true)
            (λ (b : KnowledgeArticle). article_rank G make model a ≤ article_rank G make model b)
            (λ b h. ranked-le make model a b h) found
            (sort_by-All_inv le (λ b. le a b ≡ true) found
              (subst (All (λ b. le a b ≡ true)) (sym e) (ranked_refl make model a, order.0))),
      )

  -- One of the articles that serve, than which no other is better; or none serves.
  pub IsBest : Text → Text → Text → List KnowledgeArticle → Option KnowledgeArticle → Type 0
  IsBest code make model articles none =
      All (λ (b : KnowledgeArticle). ¬ (Serves code make model b)) articles
  IsBest code make model articles (some a) =
      Serves code make model a
      × All (λ (b : KnowledgeArticle). Serves code make model b → IsNoWorse make model a b) articles

  fits-Serves :
      (code make model : Text) (a : KnowledgeArticle)
      → article_fits G code make model a ≡ true
      → Serves code make model a
  unfolding article_fits Serves
  fits-Serves code make model a h =
      let (own, some_scope) = both (text_eq a.code code) _ h in
      (
        (text_eq_iff a.code code).0 own,
        elim (either _ _ some_scope) [
          | inl all ↦ inl ((text_eq_iff _ _).0 all)
          | inr named ↦ inr (elim (either _ _ named) [
            | inl by_make ↦ inl ((text_eq_iff _ _).0 by_make)
            | inr more ↦ inr (elim (either _ _ more) [
              | inl by_model ↦ inl ((text_eq_iff _ _).0 by_model)
              | inr nameless ↦
                  let (no_make, no_model) = both (text_eq make []) (text_eq model []) nameless in
                  inr ((text_eq_iff make []).0 no_make, (text_eq_iff model []).0 no_model)
            ])
          ])
        ],
      )

  Serves-fits :
      (code make model : Text) (a : KnowledgeArticle)
      → Serves code make model a
      → article_fits G code make model a ≡ true
  unfolding article_fits Serves
  Serves-fits code make model a (own, inl all) =
      rw ((text_eq_iff a.code code).1 own) (or-left _ _ ((text_eq_iff _ _).1 all))
  Serves-fits code make model a (own, inr (inl by_make)) =
      rw ((text_eq_iff a.code code).1 own)
        (or-right _ _ (or-left _ _ ((text_eq_iff _ _).1 by_make)))
  Serves-fits code make model a (own, inr (inr (inl by_model))) =
      rw ((text_eq_iff a.code code).1 own)
        (or-right _ _ (or-right _ _ (or-left _ _ ((text_eq_iff _ _).1 by_model))))
  Serves-fits code make model a (own, inr (inr (inr (no_make, no_model)))) =
      rw ((text_eq_iff a.code code).1 own) (
        or-right (text_eq a.vehicle_scope (codes "*")) _ (
          or-right (text_eq (G.upper a.vehicle_scope) (G.upper make)) _ (
            or-right (text_eq (G.upper a.vehicle_scope) (G.upper model))
              (text_eq make [] && text_eq model []) (rw (no_make, no_model) refl))))

  -- The test of CASE for a name.
  abbrev names : Text → KnowledgeArticle → Bool
  names name a = not (text_eq name []) && text_eq (G.upper a.vehicle_scope) (G.upper name)

  names-IsForName : (name : Text) (a : KnowledgeArticle) → names name a ≡ true → IsForName name a
  unfolding IsForName
  names-IsForName name a h =
      let (known, same) = both (not (text_eq name [])) _ h in
      (not-text_eq name [] known, (text_eq_iff _ _).0 same)

  IsForName-names : (name : Text) (a : KnowledgeArticle) → IsForName name a → names name a ≡ true
  unfolding IsForName
  IsForName-names name a (known, same) =
      rw (not-text_eq_inv name [] known, (text_eq_iff _ _).1 same) refl

  rank-IsNoWorse :
      (make model : Text) (a b : KnowledgeArticle)
      → article_rank G make model a ≤ article_rank G make model b
      → IsNoWorse make model a b
  unfolding article_rank IsNoWorse
  rank-IsNoWorse make model a b h =
      let all = λ (x : KnowledgeArticle). text_eq x.vehicle_scope (codes "*") in
      let (by_model, by_make, by_all) =
        case_rank-tests (names model a) (names make a) (all a) (names model b) (names make b)
          (all b) h in
      (
        λ e. names-IsForName model a (by_model (IsForName-names model b e)),
        λ e. elim (by_make (IsForName-names make b e)) [
          | inl m ↦ inl (names-IsForName model a m)
          | inr k ↦ inr (names-IsForName make a k)
        ],
        λ e. elim (by_all ((text_eq_iff _ _).1 e)) [
          | inl m ↦ inl (names-IsForName model a m)
          | inr (inl k) ↦ inr (inl (names-IsForName make a k))
          | inr (inr s) ↦ inr (inr ((text_eq_iff _ _).0 s))
        ],
      )

  -- No article serves where none fits.
  none-Serves :
      (code make model : Text) (bs : List KnowledgeArticle)
      → keep (article_fits G code make model) bs ≡ []
      → All (λ (b : KnowledgeArticle). ¬ (Serves code make model b)) bs
  none-Serves code make model [] h = tt
  none-Serves code make model (b ∷ bs) h = elim (Bool-cases (article_fits G code make model b)) [
    | inl fits ↦ cons_nil (rw (fits, keep) at h)
    | inr unfit ↦ (
      λ s. cc (unfit, Serves-fits code make model b s),
      none-Serves code make model bs (rw (unfit, keep) at h),
    )
  ]

  all-IsNoWorse :
      (code make model : Text) (a : KnowledgeArticle) (bs : List KnowledgeArticle)
      → All
          (λ (b : KnowledgeArticle). article_rank G make model a ≤ article_rank G make model b)
          (keep (article_fits G code make model) bs)
      → All (λ (b : KnowledgeArticle). Serves code make model b → IsNoWorse make model a b) bs
  all-IsNoWorse code make model a [] h = tt
  all-IsNoWorse code make model a (b ∷ bs) h =
      elim (Bool-cases (article_fits G code make model b)) [
        | inl fits ↦
            let (first, rest) = rw (fits, keep) at h in
            (λ s. rank-IsNoWorse make model a b first, all-IsNoWorse code make model a bs rest)
        | inr unfit ↦ (
          λ s. absurd (cc (unfit, Serves-fits code make model b s)),
          all-IsNoWorse code make model a bs (rw (unfit, keep) at h),
        )
      ]

  IsRankBest-IsBest :
      (code make model : Text) (articles : List KnowledgeArticle) (o : Option KnowledgeArticle)
      → IsRankBest code make model articles o
      → IsBest code make model articles o
  unfolding IsRankBest IsBest
  IsRankBest-IsBest code make model articles none h = none-Serves code make model articles h
  IsRankBest-IsBest code make model articles (some a) (fits, least) =
      (fits-Serves code make model a fits, all-IsNoWorse code make model a articles least)

  -- The article of a code is one of those for the code and the vehicle, and none of those is
  -- better:
  -- one for the model comes before one for the make, that before one for all vehicles, and that
  -- before any other; there is none only where none is for the code and the vehicle.
  pub article_for-IsBest :
      (code make model : Text) (t : Tables)
      → IsBest code make model t.articles (article_for G code make model t)
  unfolding article_for ranked
  article_for-IsBest code make model t =
      IsRankBest-IsBest code make model t.articles _
        (first_row-IsRankBest code make model t.articles _ refl)
