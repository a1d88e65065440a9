-- ===== src/Transfer/Receiver.antt =====
-- How a request for a transfer is queued: `Persisted::handle` of src/controller/actor.rs, for the
-- `Receiver` of src/file_transfer/mod.rs. What a message is parsed to, and what its request is encoded
-- to, is answered by the environment.
pub mod Hands
mod Tests
use edgehog_device_runtime.Base.{ℕ, Option, none, some, List, [], ◌∷◌}
use edgehog_device_runtime.Jobs.{Job, pending, file_transfer, Table, insert_job}
use edgehog_device_runtime.Transfer.Errno.{to_errno, invalid_input, resource_busy}
use edgehog_device_runtime.Transfer.Worker.{Direction, Request, Report, tag_of}

-- A message, with the id that its response has, as an opaque number.
pub record Message : Type 0 where
  pub direction : Direction
  pub id : ℕ
  pub fields : ℕ

pub data Call : Type 0 where
  query notify_one : Call
  respond : Direction → ℕ → ℕ → Call

pub record World : Type 0 where
  pub table : Table
  pub calls : List Call

pub record Env : Type 0 where
  pub parse : Message → Option Request
  pub encode : Direction → ℕ → Option (List ℕ)
  pub database : List Call → Option Report

abbrev pub record_call : Call → World → World
record_call c w = record w { calls = c ∷ w.calls }

-- `TryFrom<Download> for Job` and `TryFrom<Upload> for Job`
unfoldable pub job_with : Request → Option (List ℕ) → Option Job
job_with r none = none
job_with r (some bytes) = some (record {
  id = r.id;
  job_type = file_transfer;
  tag = tag_of r.direction;
  status = pending;
  version = 0;
  schedule_at = none;
  bytes = bytes;
})

-- An error of a response is only logged.
unfoldable pub fail_job : Message → World → World
fail_job m w = record_call (respond m.direction m.id (to_errno invalid_input)) w

unfoldable pub handle_backpressure : Message → World → World
handle_backpressure m w = record_call (respond m.direction m.id (to_errno resource_busy)) w

-- A statement that fails changes nothing.
unfoldable pub inserted : ℕ → Message → Job → Option Report → World → World
inserted now m j none w = record w { table = insert_job now j w.table }
inserted now m j (some e) w = handle_backpressure m w

module _ (env : Env) where
  unfoldable pub job_of : Request → Option Job
  job_of r = job_with r (env.encode r.direction r.payload)

  unfoldable pub validated : Option Request → Option Job
  validated none = none
  validated (some r) = job_of r

  unfoldable pub validate_job : Message → Option Job
  validate_job m = validated (env.parse m)

  unfoldable pub handle_job : ℕ → Message → Option Job → World → World
  handle_job now m none w = fail_job m w
  handle_job now m (some j) w =
      let w' = record_call query w in
      record_call notify_one (inserted now m j (env.database w'.calls) w')

  unfoldable pub handle : ℕ → Message → World → World
  handle now m w = handle_job now m (validate_job m) w
