-- ===== src/Transfer/Worker/Tests.antt =====
-- The theorems on the worker at concrete inputs, and runs of the model.
use edgehog_device_runtime.Base.{
  ℕ, zero, suc, ◌≡◌, refl, arith, false, Option, none, some, List, [], ◌∷◌, Result, ok, err,
}
use edgehog_device_runtime.Jobs.{
  Job, pending, file_transfer, Row, init, insert_job, set_where, delete_where, first_by, take,
  next_job, update, delete,
}
use edgehog_device_runtime.Jobs.Drain.{free_count}
use edgehog_device_runtime.Transfer.Errno.{to_errno}
use edgehog_device_runtime.Transfer.Worker.{
  Direction, download, Request, Report, Call, transfer, World, Env, handle, jobs, change,
  request_of, to_request, next_request, send_response, job_done, job_error, close_job,
}
use edgehog_device_runtime.Transfer.Worker.Handled.{Closes, handle-Closes, responses}
use edgehog_device_runtime.Transfer.Worker.Unsent.{IsOver, handle-unsent}
use edgehog_device_runtime.Transfer.Worker.Loop
use edgehog_device_runtime.Transfer.Worker.Loop.{jobs-IsOver}

abbrev first_payload : Direction → List ℕ → Option ℕ
first_payload d [] = none
first_payload d (n ∷ _) = some n

-- a transfer with a payload over 0 fails
abbrev by_payload : ℕ → Result Report (Unit {0})
by_payload zero = ok tt
by_payload (suc _) = err 5

abbrev transfer_result : List Call → Result Report (Unit {0})
transfer_result (transfer r ∷ _) = by_payload r.payload
transfer_result _ = ok tt

abbrev env : Env
env = record {
  database = λ _. none;
  decode = first_payload;
  transfer = transfer_result;
  send = λ _. none;
  is_cancelled = λ _. false;
}

-- no response can be sent
abbrev offline : Env
offline = record env { send = λ _. some 8 }

abbrev job : ℕ → ℕ → Job
job n payload = record {
  id = n;
  job_type = file_transfer;
  tag = 0;
  status = pending;
  version = 0;
  schedule_at = none;
  bytes = payload ∷ [];
}

abbrev row : ℕ → ℕ → ℕ → Row
row n payload now = record { job = job n payload; created_at = now }

abbrev world : World
world = record { table = row 1 1 9 ∷ row 2 0 3 ∷ []; calls = [] }

abbrev request : Request
request = record { direction = download; id = 2; payload = 0 }

-- the older one is transferred, then the other one fails with EINVAL
runs_both :
    (jobs env 3 world).0 ≡ some (ok tt)
    × ((jobs env 3 world).1.table ≡ [])
    × (responses (jobs env 3 world).1.calls ≡ (download, 1, 22) ∷ (download, 2, 0) ∷ [])
unfolding jobs next_request to_request request_of next_job first_by take set_where handle close_job
    job_done job_error change update delete delete_where send_response to_errno responses
runs_both = (refl, refl, refl)

handle-Closes_example : Closes env request (ok tt) world (handle env request world)
handle-Closes_example = handle-Closes env request world

handle-unsent_example :
    IsOver request (init (handle offline request world).1.table)
    × (insert_job 12 (job 2 0) (init (handle offline request world).1.table)
        ≡ init (handle offline request world).1.table)
handle-unsent_example =
    handle-unsent offline request world 8 12 (job 2 0) refl (refl, refl) (refl, refl, refl)

jobs-IsOver_example : Loop.IsOver env (jobs env 3 world)
unfolding free_count
jobs-IsOver_example = jobs-IsOver env 3 world (refl, (refl, tt)) (omega arith)
