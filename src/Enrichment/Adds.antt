-- ===== src/Enrichment/Adds.antt =====
-- What the work of a job does to the queue (internal/enrichment/worker.go: Process).
use mechmind.Enrichment.Market.{min_model_year}
use mechmind.Enrichment.Worker.{
  seed_years, seed_pairs, process, seed_catalog, MarketModel, enqueue_all, Work,
}
use mechmind.Base.{
  All-append, append_assoc, ◌∙◌, append-nil, Bool-cases, ℕ, All, suc, ◌+◌, ◌*◌, ◌≡◌, refl, sym, ap,
  inl, inr, Bool, true, false, Option, none, some, List, [], ◌∷◌, ◌++◌,
}
use mechmind.Text.{Text, codes, text_eq}
use mechmind.Enrichment.{
  next, by_fault, enqueue_job, new_row, JobRow, JobStatus, running, Queue, Service,
}

abbrev pub is_running : JobStatus → Bool
is_running running = true
is_running s = false

-- A row that is not running.
unfoldable pub IsIdle : JobRow → Type 0
IsIdle j = is_running j.status ≡ false

-- Rows that are not running were added at the end, and no other was changed.
unfoldable pub Adds : Queue → Queue → Type 0
Adds a b = (new : List JobRow) × (b.jobs ≡ a.jobs ++ new) × All IsIdle new

pub Adds-same : (a b : Queue) → b.jobs ≡ a.jobs → Adds a b
unfolding Adds
Adds-same a b e = ([], e ∙ sym (append-nil a.jobs), tt)

pub Adds-trans : (a b c : Queue) → Adds a b → Adds b c → Adds a c
unfolding Adds
Adds-trans a b c (new, e, h) (new2, e2, h2) = (
  new ++ new2,
  e2 ∙ ap (λ (js : List JobRow). js ++ new2) e ∙ append_assoc a.jobs new new2,
  All-append IsIdle new new2 h h2,
)

-- Two ways of a statement that both add.
by_fault-Adds :
    (q : Queue) (o : Option Text) (f : Text → Option Text × Queue) (r : Option Text × Queue)
    → ((e : Text) → Adds q (f e).1)
    → Adds q r.1
    → Adds q (by_fault o f r).1
by_fault-Adds q none f r h k = k
by_fault-Adds q (some e) f r h k = h e

failed-Adds :
    {W : Type 0} (q : Queue) (e : Option Text) (w : W) (r : Option Text × Queue)
    → Adds q r.1
    → Adds q
        (by_fault {A = Option Text × (Queue × W)} e (λ t. (some t, (q, w))) (r.0, (r.1, w))).1.0
failed-Adds q none w r h = h
failed-Adds q (some t) w r h = Adds-same q q refl

-- What is asked of the work that is a parameter.
unfoldable pub OnlyAdds : Work → Type 0
OnlyAdds J =
    ((payload : Text) (s : Queue × J.World) → Adds s.0 (J.vin_decode payload s).1.0)
    × ((payload : Text) (s : Queue × J.World) → Adds s.0 (J.recalls_mmy payload s).1.0)

module _ (V : Service) where
  open V use {fault, clock}

  pub enqueue_job-Adds :
      (kind payload : Text) (after : ℕ) (q : Queue) → Adds q (enqueue_job V kind payload after q).1
  unfolding enqueue_job Adds IsIdle new_row
  enqueue_job-Adds kind payload after q =
      by_fault-Adds q (fault q.statements) _ _ (λ e. Adds-same q (next q) refl)
        (new_row V kind payload after q ∷ [], refl, (refl, tt))

module _ (V : Service) (J : Work) where
  open V use {fault, clock}

  enqueue_all-Adds :
      (n : ℕ) (ps : List (MarketModel × ℕ)) (q : Queue) → Adds q (enqueue_all V J n ps q).1
  unfolding enqueue_all
  enqueue_all-Adds n [] q = Adds-same q q refl
  enqueue_all-Adds n ((m, y) ∷ ps) q =
      let after = clock q.statements + n * 500000000 in
      let first = enqueue_job-Adds V (codes "recalls_mmy") (J.payload m y) after q in
      let (e, q1) = enqueue_job V (codes "recalls_mmy") (J.payload m y) after q in
      by_fault-Adds q e _ _ (λ t. first) (Adds-trans q q1 _ first (enqueue_all-Adds (suc n) ps q1))

  seed_catalog-Adds : (s : Queue × J.World) → Adds s.0 (seed_catalog V J s).1.0
  unfolding seed_catalog
  seed_catalog-Adds (q, w) =
      let ((e, models), w1) = J.models w in
      let seeded = seed_pairs models (seed_years 15 min_model_year) in
      failed-Adds q e w1 (enqueue_all V J 0 seeded q) (enqueue_all-Adds 0 seeded q)

  pub process-Adds :
      OnlyAdds J → (j : JobRow) (s : Queue × J.World) → Adds s.0 (process V J j s).1.0
  unfolding process OnlyAdds
  process-Adds (decodes, fetches) j s = elim (Bool-cases (text_eq j.kind (codes "vin_decode"))) [
    | inl a ↦ rw a (decodes j.payload s)
    | inr a ↦ elim (Bool-cases (text_eq j.kind (codes "recalls_mmy"))) [
      | inl b ↦ rw (a, b) (fetches j.payload s)
      | inr b ↦ elim (Bool-cases (text_eq j.kind (codes "seed_catalog"))) [
        | inl c ↦ rw (a, b, c) (seed_catalog-Adds s)
        | inr c ↦ rw (a, b, c) (Adds-same s.0 s.0 refl)
      ]
    ]
  ]
