-- ===== src/Jobs/Keys.antt =====
-- The primary key of `job_queue`, over the operations of src/jobs/mod.rs.
use edgehog_device_runtime.Base.{
  ℕ, ◌≡◌, refl, ◌∙◌, inl, inr, Bool, false, any, Option, none, some, List, [], ◌∷◌, arith,
  Bool-cases, or-eq-false, any-append-eq-false,
}
use edgehog_device_runtime.Jobs.{
  Row, Table, Job, JobType, file_transfer, file_storage, JobStatus, pending, in_progress, has_key,
  key_of, eqb_type, set_where, delete_where, add, insert_job, insert_if_missing, exists, init, take,
  next_job, next_job_tag, next_scheduled_job, update, delete,
}

-- No two rows have the same primary key.
abbrev pub Distinct : Table → Type 0
Distinct [] = Unit
Distinct (r ∷ t) = (any (key_of r.job) t ≡ false) × Distinct t

-- The operations that change the table. `created_at` comes with an insertion.
pub data Operation : Type 0 where
  init_op : Operation
  insert_op insert_missing_op : ℕ → Job → Operation
  next_op : JobType → Operation
  next_tag_op next_scheduled_op : ℕ → JobType → Operation
  update_op : ℕ → JobType → ℕ → JobStatus → Operation
  delete_op : ℕ → JobType → ℕ → Operation

unfoldable pub apply : Operation → Table → Table
apply init_op t = init t
apply (insert_op now j) t = insert_job now j t
apply (insert_missing_op now j) t = (insert_if_missing now j t).1
apply (next_op jt) t = (next_job jt t).1
apply (next_tag_op tag jt) t = (next_job_tag jt tag t).1
apply (next_scheduled_op now jt) t = (next_scheduled_job now jt t).1
apply (update_op id jt tag s) t = update id jt tag s t
apply (delete_op id jt tag) t = delete id jt tag t

unfoldable pub run : List Operation → Table → Table
run [] t = t
run (op ∷ ops) t = run ops (apply op t)

pub any-set_where :
    (id : ℕ) (jt : JobType) (tag : ℕ) (test : Row → Bool) (s : JobStatus) (t : Table)
    → any (has_key id jt tag) (set_where test s t) ≡ any (has_key id jt tag) t
unfolding set_where
any-set_where id jt tag test s [] = refl
any-set_where id jt tag test s (r ∷ t) = elim (Bool-cases (test r)) [
  | inl e ↦ rw (e, any-set_where id jt tag test s t) refl
  | inr e ↦ rw (e, any-set_where id jt tag test s t) refl
]

pub set_where-Distinct :
    (test : Row → Bool) (s : JobStatus) (t : Table) → Distinct t → Distinct (set_where test s t)
unfolding set_where
set_where-Distinct test s [] d = tt
set_where-Distinct test s (r ∷ t) d =
    let rest = set_where-Distinct test s t d.1 in
    elim (Bool-cases (test r)) [
      | inl e ↦ rw e (any-set_where r.job.id r.job.job_type r.job.tag test s t ∙ d.0, rest)
      | inr e ↦ rw e (any-set_where r.job.id r.job.job_type r.job.tag test s t ∙ d.0, rest)
    ]

any-delete_where :
    (j : Job) (test : Row → Bool) (t : Table)
    → any (key_of j) t ≡ false
    → any (key_of j) (delete_where test t) ≡ false
unfolding delete_where
any-delete_where j test [] h = refl
any-delete_where j test (r ∷ t) h =
    let (e, rest) = or-eq-false (key_of j r) (any (key_of j) t) h in
    elim (Bool-cases (test r)) [
      | inl p ↦ rw p (any-delete_where j test t rest)
      | inr p ↦ rw (p, e) (any-delete_where j test t rest)
    ]

pub delete_where-Distinct :
    (test : Row → Bool) (t : Table) → Distinct t → Distinct (delete_where test t)
unfolding delete_where
delete_where-Distinct test [] d = tt
delete_where-Distinct test (r ∷ t) d =
    let rest = delete_where-Distinct test t d.1 in
    elim (Bool-cases (test r)) [
      | inl e ↦ rw e rest
      | inr e ↦ rw e (any-delete_where r.job test t d.0, rest)
    ]

eqb_type_comm : (a b : JobType) → eqb_type a b ≡ eqb_type b a
eqb_type_comm file_transfer file_transfer = refl
eqb_type_comm file_transfer file_storage = refl
eqb_type_comm file_storage file_transfer = refl
eqb_type_comm file_storage file_storage = refl

pub key_of_comm : (r s : Row) → key_of r.job s ≡ key_of s.job r
key_of_comm r s = ground (arith, eqb_type_comm r.job.job_type s.job.job_type)

add-Distinct :
    (now : ℕ) (j : Job) (t : Table) → any (key_of j) t ≡ false → Distinct t → Distinct (add now j t)
add-Distinct now j [] h d = (refl, tt)
add-Distinct now j (r ∷ t) h d =
    let new : Row = record { job = j; created_at = now } in
    let (e, rest) = or-eq-false (key_of j r) (any (key_of j) t) h in
    let k : key_of r.job new ≡ false = key_of_comm r new ∙ e in
    (any-append-eq-false (key_of r.job) t (new ∷ []) d.0 (rw k refl), add-Distinct now j t rest d.1)

take-Distinct : (o : Option Row) (t : Table) → Distinct t → Distinct (take o t).1
unfolding take
take-Distinct none t d = d
take-Distinct (some r) t d = set_where-Distinct (key_of r.job) in_progress t d

insert_job-Distinct : (now : ℕ) (j : Job) (t : Table) → Distinct t → Distinct (insert_job now j t)
unfolding insert_job
insert_job-Distinct now j t d = elim (Bool-cases (any (key_of j) t)) [
  | inl e ↦ rw e d
  | inr e ↦ rw e (add-Distinct now j t e d)
]

insert_if_missing-Distinct :
    (now : ℕ) (j : Job) (t : Table) → Distinct t → Distinct (insert_if_missing now j t).1
unfolding insert_if_missing exists
insert_if_missing-Distinct now j t d = elim (Bool-cases (any (key_of j) t)) [
  | inl e ↦ rw e d
  | inr e ↦ rw e (add-Distinct now j t e d)
]

pub apply-Distinct : (op : Operation) (t : Table) → Distinct t → Distinct (apply op t)
unfolding apply init next_job next_job_tag next_scheduled_job update delete
apply-Distinct init_op t d = set_where-Distinct _ pending t d
apply-Distinct (insert_op now j) t d = insert_job-Distinct now j t d
apply-Distinct (insert_missing_op now j) t d = insert_if_missing-Distinct now j t d
apply-Distinct (next_op jt) t d = take-Distinct _ t d
apply-Distinct (next_tag_op tag jt) t d = take-Distinct _ t d
apply-Distinct (next_scheduled_op now jt) t d = take-Distinct _ t d
apply-Distinct (update_op id jt tag s) t d = set_where-Distinct (has_key id jt tag) s t d
apply-Distinct (delete_op id jt tag) t d = delete_where-Distinct (has_key id jt tag) t d
