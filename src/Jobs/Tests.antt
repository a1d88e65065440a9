-- ===== src/Jobs/Tests.antt =====
-- The theorems on the queue at concrete inputs, and runs of the model.
use edgehog_device_runtime.Base.{ℕ, ◌≡◌, refl, none, some, List, [], ◌∷◌, pos}
use edgehog_device_runtime.Jobs.{
  Job, pending, in_progress, done, JobType, file_transfer, file_storage, Row, Table, with_status,
  set_where, first_by, take, next_job, next_schedule, next_scheduled_job, unix_new, unix_of_i64,
}
use edgehog_device_runtime.Jobs.Keys.{
  Operation, init_op, insert_op, insert_missing_op, next_op, update_op, delete_op,
}
use edgehog_device_runtime.Jobs.Drain.{Takes, next_job-Takes}

abbrev job : ℕ → JobType → Job
job n jt = record {
  id = n;
  job_type = jt;
  tag = 0;
  status = pending;
  version = 0;
  schedule_at = none;
  bytes = [];
}

abbrev row : ℕ → JobType → ℕ → Row
row n jt now = record { job = job n jt; created_at = now }

-- a deletion of storage that is due at 40
abbrev due : Row
due = record { job = record (job 4 file_storage) { schedule_at = some (pos 40) }; created_at = 6 }

abbrev table : Table
table = row 1 file_transfer 9 ∷ row 2 file_storage 3 ∷ row 3 file_transfer 5 ∷ due ∷ []

takes_oldest : next_job file_transfer table ≡ (
  some (with_status in_progress (row 3 file_transfer 5)).job,
  row 1 file_transfer 9
      ∷ row 2 file_storage 3
      ∷ with_status in_progress (row 3 file_transfer 5)
      ∷ due
      ∷ [],
)
unfolding next_job first_by take set_where
takes_oldest = refl

takes_due : (next_scheduled_job 40 file_storage table).0 ≡ some (with_status in_progress due).job
unfolding next_scheduled_job first_by take
takes_due = refl

not_yet_due : next_scheduled_job 39 file_storage table ≡ (none, table)
unfolding next_scheduled_job first_by take
not_yet_due = refl

schedules : next_schedule file_storage table ≡ some (some 40)
unfolding next_schedule first_by unix_of_i64 unix_new
schedules = refl

abbrev operations : List Operation
operations =
    insert_op 1 (job 1 file_transfer)
    ∷ insert_op 2 (job 1 file_transfer)
    ∷ next_op file_transfer
    ∷ init_op
    ∷ update_op 1 file_transfer 0 done
    ∷ insert_missing_op 4 (job 1 file_storage)
    ∷ delete_op 1 file_transfer 0
    ∷ []

next_job-Takes_example :
    Takes file_transfer table (next_job file_transfer table).0 (next_job file_transfer table).1
next_job-Takes_example = next_job-Takes file_transfer table (refl, (refl, (refl, (refl, tt))))
