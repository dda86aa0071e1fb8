-- ===== src/Store/Tables/Gives.antt =====
-- What holds of the value that a method returns and of the tables after it; an error is not asked
-- about.
use mechmind.Base.{◌≡◌, refl, Option, none, some}
use mechmind.Text.{Text}
use mechmind.Store.{erred, holds}
use mechmind.Store.Accounts.{and_then, ran}
use mechmind.Store.Tables.{
  Tables, Server, Kept, query, finish, in_transaction, committed, after_query, undone,
}

module _ {A : Type 0} where
  abbrev pub Gives : (A → Tables → Type 0) → Kept A → Type 0
  Gives P (erred e, t) = Unit
  Gives P (holds a, t) = P a t

  -- On an error every row is as before.
  abbrev pub IsAtomic : Tables → Kept A → Type 0
  IsAtomic before (erred e, t) = t ≡ undone before t
  IsAtomic before (holds a, t) = Unit

pub and_then-Gives :
    {A B : Type 0} (P : A → Tables → Type 0) (Q : B → Tables → Type 0)
    → (m : Kept A) (k : A → Tables → Kept B) → Gives P m
    → ((a : A) (t : Tables) → P a t → Gives Q (k a t))
    → Gives Q (and_then m k)
and_then-Gives P Q (erred e, t) k p f = tt
and_then-Gives P Q (holds a, t) k p f = f a t p

pub Gives-imp :
    {A : Type 0} (P Q : A → Tables → Type 0) (m : Kept A)
    → Gives P m
    → ((a : A) (t : Tables) → P a t → Q a t)
    → Gives Q m
Gives-imp P Q (erred e, t) p f = tt
Gives-imp P Q (holds a, t) p f = f a t p

ran-Gives :
    {A : Type 0} (P : A → Tables → Type 0) (o : Option Text) (run : Tables → Kept A) (t : Tables)
    → Gives P (run t)
    → Gives P (ran o run t)
ran-Gives P none run t p = p
ran-Gives P (some e) run t p = tt

module _ {F : Type 0} (G : Server F) where
  open G use {postgres}

  pub query-Gives :
      {A : Type 0} (P : A → Tables → Type 0) (run : Tables → Kept A) (t : Tables)
      → Gives P (run (after_query t))
      → Gives P (query G run t)
  unfolding query
  query-Gives P run t p = ran-Gives P (postgres.fault t.statements) run (after_query t) p

module _ {F : Type 0} (G : Server F) {A : Type 0} where
  open G use {postgres}

  committed-Gives :
      (P : A → Tables → Type 0) (o : Option Text) (before : Tables) (a : A) (t : Tables)
      → P a t
      → Gives P (committed o before a t)
  committed-Gives P none before a t p = p
  committed-Gives P (some e) before a t p = tt

  finish-Gives :
      (P : A → Tables → Type 0) (before : Tables) (m : Kept A)
      → ((a : A) (u : Tables) → P a u → P a (after_query u))
      → Gives P m
      → Gives P (finish G before m)
  unfolding finish
  finish-Gives P before (erred e, t) steady p = tt
  finish-Gives P before (holds a, t) steady p =
      committed-Gives P (postgres.fault t.statements) before a (after_query t) (steady a t p)

  -- What a transaction gives, where counting a statement does not matter.
  pub in_transaction-Gives :
      (P : A → Tables → Type 0) (body : Tables → Kept A) (t : Tables)
      → ((a : A) (u : Tables) → P a u → P a (after_query u))
      → Gives P (body (after_query t))
      → Gives P (in_transaction G body t)
  unfolding in_transaction
  in_transaction-Gives P body t steady p =
      and_then-Gives (λ _ u. u ≡ after_query t) P (query G (λ u. (holds tt, u)) t)
        (λ _ u. finish G u (body u))
        (query-Gives G (λ _ u. u ≡ after_query t) (λ u. (holds tt, u)) t refl)
        λ _ u e. rw e (finish-Gives P (after_query t) (body (after_query t)) steady p)

  committed-IsAtomic :
      (o : Option Text) (before : Tables) (a : A) (t : Tables)
      → IsAtomic before (committed o before a t)
  committed-IsAtomic none before a t = tt
  committed-IsAtomic (some e) before a t = refl

  finish-IsAtomic : (before : Tables) (m : Kept A) → IsAtomic before (finish G before m)
  unfolding finish
  finish-IsAtomic before (erred e, t) = refl
  finish-IsAtomic before (holds a, t) =
      committed-IsAtomic (postgres.fault t.statements) before a (after_query t)

  started-IsAtomic :
      (o : Option Text) (body : Tables → Kept A) (t : Tables)
      → IsAtomic t
          (and_then (ran o (λ u. (holds tt, u)) (after_query t)) (λ _ u. finish G u (body u)))
  started-IsAtomic (some e) body t = refl
  started-IsAtomic none body t = finish-IsAtomic (after_query t) (body (after_query t))

  pub in_transaction-IsAtomic :
      (body : Tables → Kept A) (t : Tables) → IsAtomic t (in_transaction G body t)
  unfolding in_transaction query
  in_transaction-IsAtomic body t = started-IsAtomic (postgres.fault t.statements) body t
