-- ===== src/Jobs/Numbers.antt =====
-- The numbers of the statuses and types in the database: status.rs and job_type.rs of
-- edgehog-device-runtime-store/src/models/job.
use edgehog_device_runtime.Base.{zero, suc, arith, ◌≡◌, refl, ◌↔◌, String, ok, ℤ, pos, negsuc}
use edgehog_device_runtime.Jobs.{
  JobStatus, pending, in_progress, done, error, i32_of_status, status_of_i32, JobType,
  file_transfer, file_storage, i32_of_type, type_of_i32,
}

module _ (text : ℤ → String) where
  status_back : (s : JobStatus) → status_of_i32 text (i32_of_status s) ≡ ok s
  unfolding status_of_i32
  status_back pending = refl
  status_back in_progress = refl
  status_back done = refl
  status_back error = refl

  status_only : (n : ℤ) (s : JobStatus) → status_of_i32 text n ≡ ok s → n ≡ i32_of_status s
  unfolding status_of_i32
  status_only (pos zero) s e = cc
  status_only (pos (suc zero)) s e = ground arith
  status_only (pos (suc (suc zero))) s e = ground arith
  status_only (pos (suc (suc (suc zero)))) s e = ground arith
  status_only (pos (suc (suc (suc (suc n))))) s e = absurd (cc)
  status_only (negsuc n) s e = absurd (cc)

  type_back : (t : JobType) → type_of_i32 text (i32_of_type t) ≡ ok t
  unfolding type_of_i32
  type_back file_transfer = refl
  type_back file_storage = refl

  type_only : (n : ℤ) (t : JobType) → type_of_i32 text n ≡ ok t → n ≡ i32_of_type t
  unfolding type_of_i32
  type_only (pos zero) t e = cc
  type_only (pos (suc zero)) t e = ground arith
  type_only (pos (suc (suc n))) t e = absurd (cc)
  type_only (negsuc n) t e = absurd (cc)

  -- A number is read as a status, or as a type, exactly if it is the number of that status, or type.
  pub numbers_iff :
      (n : ℤ) (s : JobStatus) (t : JobType)
      → ((status_of_i32 text n ≡ ok s) ↔ (n ≡ i32_of_status s))
        × ((type_of_i32 text n ≡ ok t) ↔ (n ≡ i32_of_type t))
  numbers_iff n s t =
      ((status_only n s, λ e. rw e (status_back s)), (type_only n t, λ e. rw e (type_back t)))
