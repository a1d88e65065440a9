-- ===== src/Jobs/Drain.antt =====
-- What `next_job` of src/jobs/mod.rs hands out, and how a queue is emptied.
use edgehog_device_runtime.Base.{
  ℕ, suc, ◌+◌, ◌≡◌, refl, ap, subst, ◌∙◌, Bool, true, false, any, Option, none, some, [], ◌∷◌, ◌++◌,
  All, arith, or-eq-false, if◌then◌else◌,
}
use edgehog_device_runtime.Jobs.{
  Row, Table, Job, JobType, file_transfer, file_storage, JobStatus, in_progress, key_of, eqb_type,
  with_status, set_where, take, first_by, next_job, is_free, created,
}
use edgehog_device_runtime.Jobs.Pick.{IsLeast, Picks, first_by-Picks}
use edgehog_device_runtime.Jobs.Keys.{Distinct, key_of_comm}

eqb_type_refl : (a : JobType) → eqb_type a a ≡ true
eqb_type_refl file_transfer = refl
eqb_type_refl file_storage = refl

key_of_self : (r : Row) → key_of r.job r ≡ true
key_of_self r = ground (arith, eqb_type_refl r.job.job_type)

set_where-miss :
    (test : Row → Bool) (s : JobStatus) (t : Table) → any test t ≡ false → set_where test s t ≡ t
unfolding set_where
set_where-miss test s [] h = refl
set_where-miss test s (r ∷ t) h =
    let (e, rest) = or-eq-false (test r) (any test t) h in rw (e, set_where-miss test s t rest) refl

any-row :
    (q r : Row) (before after : Table)
    → any (key_of q.job) (before ++ (r ∷ after)) ≡ false
    → key_of q.job r ≡ false
any-row q r [] after h = (or-eq-false (key_of q.job r) (any (key_of q.job) after) h).0
any-row q r (p ∷ before) after h =
    any-row q r before after
      (or-eq-false (key_of q.job p) (any (key_of q.job) (before ++ (r ∷ after))) h).1

set_where-row :
    (r : Row) (s : JobStatus) (before after : Table)
    → Distinct (before ++ (r ∷ after))
    → set_where (key_of r.job) s (before ++ (r ∷ after)) ≡ before ++ (with_status s r ∷ after)
unfolding set_where
set_where-row r s [] after d = rw (key_of_self r, set_where-miss (key_of r.job) s after d.0) refl
set_where-row r s (q ∷ before) after d =
    let e : key_of r.job q ≡ false = key_of_comm r q ∙ any-row q r before after d.0 in
    rw (e, set_where-row r s before after d.1) refl

-- The result of `next_job`: the oldest free job, which is the only row that changes.
abbrev pub Takes : JobType → Table → Option Job → Table → Type 0
Takes jt t none t' = All (λ r. is_free jt r ≡ false) t × (t' ≡ t)
Takes jt t (some j) t' =
    (r : Row) × (before after : Table) × (t ≡ before ++ (r ∷ after))
    × (is_free jt r ≡ true)
    × IsLeast (is_free jt) created r t
    × (j ≡ (with_status in_progress r).job)
    × (t' ≡ before ++ (with_status in_progress r ∷ after))

take-Takes :
    (jt : JobType) (o : Option Row) (t : Table)
    → Distinct t
    → Picks (is_free jt) created t o
    → Takes jt t (take o t).0 (take o t).1
unfolding take
take-Takes jt none t d p = (p, refl)
take-Takes jt (some r) t d (before, after, split, free, least) = (
  r,
  before,
  after,
  split,
  free,
  least,
  refl,
  ap (set_where (key_of r.job) in_progress) split
      ∙ set_where-row r in_progress before after (subst Distinct split d),
)

-- On a table with distinct keys, `next_job` returns a pending job of the type that no other was created
-- before, and marks that row as in progress and leaves all others as they were. It returns nothing
-- exactly if there is no pending job of the type, and then changes nothing.
pub next_job-Takes :
    (jt : JobType) (t : Table) → Distinct t → Takes jt t (next_job jt t).0 (next_job jt t).1
unfolding next_job
next_job-Takes jt t d =
    take-Takes jt (first_by (is_free jt) created t) t d (first_by-Picks (is_free jt) created t)

-- how many rows are free
unfoldable pub free_count : JobType → Table → ℕ
free_count jt [] = 0
free_count jt (r ∷ t) = (if is_free jt r then 1 else 0) + free_count jt t

free_count-append :
    (jt : JobType) (s t : Table) → free_count jt (s ++ t) ≡ free_count jt s + free_count jt t
unfolding free_count
free_count-append jt [] t = omega arith
free_count-append jt (r ∷ s) t = omega (arith, free_count-append jt s t)

free_count-none :
    (jt : JobType) (t : Table) → All (λ r. is_free jt r ≡ false) t → free_count jt t ≡ 0
unfolding free_count
free_count-none jt [] h = refl
free_count-none jt (r ∷ t) h = rw (h.0, free_count-none jt t h.1) refl

-- A row that is taken is free no more.
free_count-taken :
    (jt : JobType) (r : Row) (after : Table)
    → is_free jt r ≡ true
    → free_count jt (r ∷ after) ≡ suc (free_count jt (with_status in_progress r ∷ after))
unfolding free_count
free_count-taken jt r after e = ground arith

pub Takes-free_count :
    (jt : JobType) (t t' : Table) (j : Job)
    → Takes jt t (some j) t'
    → free_count jt t ≡ suc (free_count jt t')
Takes-free_count jt t t' j (r, before, after, split, free, least, same, split') =
    rw (split, split')
      (omega (
        arith,
        free_count-append jt before (r ∷ after),
        free_count-append jt before (with_status in_progress r ∷ after),
        free_count-taken jt r after free,
      ))

pub Takes-none : (jt : JobType) (t t' : Table) → Takes jt t none t' → free_count jt t ≡ 0
Takes-none jt t t' h = free_count-none jt t h.0
