-- ===== src/Recovery/Distinct.antt =====
-- Tables whose rows have distinct ids, as a primary key makes them.
use document_insight.Prelude.{
  ℕ, ◌≡◌, ◌≢◌, Bool, [], ◌∷◌, inl, inr, zero, suc, Bool-cases, All, update_where, keep_if, take,
  leb, All-update_where, All-kept, All-take,
}
use document_insight.Job.Model.{JobRow, Jobs}
use document_insight.Job.Requeue.{order_by_age, insert_by_age}

-- No two rows have the same id.
abbrev pub Distinct : Jobs → Type 0
Distinct [] = Unit
Distinct (job ∷ jobs) = All (λ (other : JobRow). other.id ≢ job.id) jobs × Distinct jobs

module _ (P : JobRow → Type 0) where
  All-insert : (x : JobRow) (jobs : Jobs) → P x → All P jobs → All P (insert_by_age x jobs)
  unfolding insert_by_age
  All-insert x [] p h = (p, tt)
  All-insert x (job ∷ jobs) p h = elim (Bool-cases (leb x.created_at job.created_at)) [
    | inl e ↦ rw e (p, h)
    | inr e ↦ rw e (h.0, All-insert x jobs p h.1)
  ]

  pub All-order : (jobs : Jobs) → All P jobs → All P (order_by_age jobs)
  unfolding order_by_age
  All-order [] h = tt
  All-order (job ∷ jobs) h = All-insert job (order_by_age jobs) h.0 (All-order jobs h.1)

pub Distinct-kept :
    (test : JobRow → Bool) (jobs : Jobs) → Distinct jobs → Distinct (keep_if test jobs)
Distinct-kept test [] h = tt
Distinct-kept test (job ∷ jobs) h = elim (Bool-cases (test job)) [
  | inl e ↦ rw e (All-kept (λ other. other.id ≢ job.id) test jobs h.0, Distinct-kept test jobs h.1)
  | inr e ↦ rw e (Distinct-kept test jobs h.1)
]

Distinct-insert :
    (x : JobRow) (jobs : Jobs)
    → All (λ other. other.id ≢ x.id) jobs
    → Distinct jobs
    → Distinct (insert_by_age x jobs)
unfolding insert_by_age
Distinct-insert x [] other h = (tt, tt)
Distinct-insert x (job ∷ jobs) other h = elim (Bool-cases (leb x.created_at job.created_at)) [
  | inl e ↦ rw e (other, h)
  | inr e ↦ rw e (
    All-insert (λ y. y.id ≢ job.id) x jobs (λ same. other.0 (cc same)) h.0,
    Distinct-insert x jobs other.1 h.1,
  )
]

pub Distinct-order : (jobs : Jobs) → Distinct jobs → Distinct (order_by_age jobs)
unfolding order_by_age
Distinct-order [] h = tt
Distinct-order (job ∷ jobs) h =
    Distinct-insert job (order_by_age jobs) (All-order (λ other. other.id ≢ job.id) jobs h.0)
      (Distinct-order jobs h.1)

pub Distinct-take : (n : ℕ) (jobs : Jobs) → Distinct jobs → Distinct (take n jobs)
Distinct-take zero [] h = tt
Distinct-take zero (job ∷ jobs) h = tt
Distinct-take (suc n) [] h = tt
Distinct-take (suc n) (job ∷ jobs) h =
    (All-take (λ other. other.id ≢ job.id) n jobs h.0, Distinct-take n jobs h.1)

-- An update that keeps the ids keeps them distinct.
pub Distinct-update :
    (test : JobRow → Bool) (change : JobRow → JobRow)
    → ((job : JobRow) → (change job).id ≡ job.id)
    → (jobs : Jobs) → Distinct jobs
    → Distinct (update_where test change jobs)
Distinct-update test change keeps [] h = tt
Distinct-update test change keeps (job ∷ jobs) h = elim (Bool-cases (test job)) [
  | inl e ↦ rw e (
    All-update_where (λ y. y.id ≢ (change job).id) test change
        (λ y t other same. other (cc (same, keeps y))) jobs (rw (keeps job) h.0),
    Distinct-update test change keeps jobs h.1,
  )
  | inr e ↦ rw e (
    All-update_where (λ y. y.id ≢ job.id) test change (λ y t other same. other (cc (same, keeps y)))
        jobs h.0,
    Distinct-update test change keeps jobs h.1,
  )
]
