-- ===== src/Jobs.antt =====
-- The persistent queue of jobs: src/jobs/mod.rs, with the model of a job of
-- edgehog-device-runtime-store/src/models/job. The table `job_queue` is a list of rows in some order.
-- Each operation is one statement or one transaction of the database, here where it succeeds.
pub mod Pick
pub mod Keys
pub mod Drain
pub mod Numbers
pub mod Tests
use edgehog_device_runtime.Base.{
  ℕ, zero, suc, String, Bool, true, false, ◌&&◌, ◌==◌, leb, not, any, if◌then◌else◌, Option, none,
  some, List, [], ◌∷◌, ◌++◌, Result, ok, err, ℤ, pos, leb_ℤ,
}

pub data JobStatus : Type 0 where
  pending in_progress done error : JobStatus

pub data JobType : Type 0 where
  file_transfer file_storage : JobType

abbrev pub i32_of_status : JobStatus → ℤ
i32_of_status pending = pos 0
i32_of_status in_progress = pos 1
i32_of_status done = pos 2
i32_of_status error = pos 3

-- The text of an error is a parameter: the number's decimal form.
unfoldable pub status_of_i32 : (ℤ → String) → ℤ → Result String JobStatus
status_of_i32 text (pos zero) = ok pending
status_of_i32 text (pos (suc zero)) = ok in_progress
status_of_i32 text (pos (suc (suc zero))) = ok done
status_of_i32 text (pos (suc (suc (suc zero)))) = ok error
status_of_i32 text n = err (text n)

abbrev pub i32_of_type : JobType → ℤ
i32_of_type file_transfer = pos 0
i32_of_type file_storage = pos 1

unfoldable pub type_of_i32 : (ℤ → String) → ℤ → Result String JobType
type_of_i32 text (pos zero) = ok file_transfer
type_of_i32 text (pos (suc zero)) = ok file_storage
type_of_i32 text n = err (text n)

pub record Job : Type 0 where
  pub id : ℕ
  pub job_type : JobType
  pub tag : ℕ
  pub status : JobStatus
  pub version : ℕ
  pub schedule_at : Option ℤ
  pub bytes : List ℕ

-- A row of `job_queue`. `created_at` is filled in by the database.
pub record Row : Type 0 where
  pub job : Job
  pub created_at : ℕ

abbrev pub Table : Type 0
Table = List Row

abbrev pub eqb_type : JobType → JobType → Bool
eqb_type file_transfer file_transfer = true
eqb_type file_storage file_storage = true
eqb_type _ _ = false

abbrev pub is_pending : JobStatus → Bool
is_pending pending = true
is_pending _ = false

abbrev pub is_in_progress : JobStatus → Bool
is_in_progress in_progress = true
is_in_progress _ = false

-- the filter on the primary key
abbrev pub has_key : ℕ → JobType → ℕ → Row → Bool
has_key id jt tag r = r.job.id == id && eqb_type r.job.job_type jt && r.job.tag == tag

abbrev pub with_status : JobStatus → Row → Row
with_status s r = record r { job = record r.job { status = s } }

-- `UPDATE … SET status … WHERE`
unfoldable pub set_where : (Row → Bool) → JobStatus → Table → Table
set_where test s [] = []
set_where test s (r ∷ t) = (if test r then with_status s r else r) ∷ set_where test s t

unfoldable pub delete_where : (Row → Bool) → Table → Table
delete_where test [] = []
delete_where test (r ∷ t) = let rest = delete_where test t in if test r then rest else r ∷ rest

-- `… ORDER BY … ASC LIMIT 1`: a row of least rank among those that pass the test
abbrev pub older : (Row → ℤ) → Row → Option Row → Row
older rank r none = r
older rank r (some s) = if leb_ℤ (rank r) (rank s) then r else s

unfoldable pub first_by : (Row → Bool) → (Row → ℤ) → Table → Option Row
first_by test rank [] = none
first_by test rank (r ∷ t) =
    let rest = first_by test rank t in if test r then some (older rank r rest) else rest

abbrev pub created : Row → ℤ
created r = pos r.created_at

-- `schedule_at`, of the rows that have one
abbrev pub schedule : Row → ℤ
schedule r = elim r.job.schedule_at [ some n ↦ n | none ↦ pos 0 ]

unfoldable pub init : Table → Table
init t = set_where (λ r. is_in_progress r.job.status) pending t

unfoldable pub exists : ℕ → JobType → ℕ → Table → Bool
exists id jt tag t = any (has_key id jt tag) t

unfoldable pub contains : JobType → ℕ → Table → Bool
contains jt tag t = any (λ r. eqb_type r.job.job_type jt && r.job.tag == tag) t

abbrev pub key_of : Job → Row → Bool
key_of j = has_key j.id j.job_type j.tag

abbrev pub add : ℕ → Job → Table → Table
add now j t = t ++ (record { job = j; created_at = now }) ∷ []

-- `ON CONFLICT DO NOTHING`: a job with the same key stays as it is.
unfoldable pub insert_job : ℕ → Job → Table → Table
insert_job now j t = if any (key_of j) t then t else add now j t

unfoldable pub insert_if_missing : ℕ → Job → Table → Bool × Table
insert_if_missing now j t =
    if exists j.id j.job_type j.tag t then (false, t) else (true, add now j t)

-- `Queue::in_progress` on the row that was found
unfoldable pub take : Option Row → Table → Option Job × Table
take none t = (none, t)
take (some r) t = (some (with_status in_progress r).job, set_where (key_of r.job) in_progress t)

abbrev pub is_free : JobType → Row → Bool
is_free jt r = eqb_type r.job.job_type jt && is_pending r.job.status

unfoldable pub next_job : JobType → Table → Option Job × Table
next_job jt t = take (first_by (is_free jt) created t) t

unfoldable pub next_job_tag : JobType → ℕ → Table → Option Job × Table
next_job_tag jt tag t = take (first_by (λ r. is_free jt r && r.job.tag == tag) created t) t

abbrev pub is_scheduled : Row → Bool
is_scheduled r = elim r.job.schedule_at [ some _ ↦ true | none ↦ false ]

-- `Unix::new` refuses the seconds from `i64::MAX` on.
unfoldable pub unix_new : ℕ → Option ℕ
unix_new seconds = if leb 9223372036854775807 seconds then none else some seconds

unfoldable pub unix_of_i64 : ℤ → Option ℕ
unix_of_i64 (pos n) = unix_new n
unix_of_i64 _ = none

abbrev pub unix_of : Option Row → Option (Option ℕ)
unix_of none = some none
unix_of (some r) = elim (unix_of_i64 (schedule r)) [ none ↦ none | some n ↦ some (some n) ]

-- `none` where the stored number is no timestamp
unfoldable pub next_schedule : JobType → Table → Option (Option ℕ)
next_schedule jt t = unix_of (first_by (λ r. is_scheduled r && is_free jt r) schedule t)

unfoldable pub next_scheduled_job : ℕ → JobType → Table → Option Job × Table
next_scheduled_job now jt t =
    take (first_by (λ r. is_scheduled r && leb_ℤ (schedule r) (pos now) && is_free jt r) schedule t)
      t

unfoldable pub update : ℕ → JobType → ℕ → JobStatus → Table → Table
update id jt tag s t = set_where (has_key id jt tag) s t

unfoldable pub delete : ℕ → JobType → ℕ → Table → Table
delete id jt tag t = delete_where (has_key id jt tag) t
