-- ===== src/Transfer/Worker.antt =====
-- The worker that takes the transfers out of the queue: `FileTransfer::jobs`, `handle`, `job_done` and
-- `job_error` of src/file_transfer/mod.rs, with the conversion from a job of
-- src/file_transfer/request/mod.rs. What a transfer does is answered by the environment.
pub mod Handled
pub mod Loop
pub mod Unsent
pub mod Tests
use edgehog_device_runtime.Base.{
  ℕ, zero, suc, Bool, true, false, Option, none, some, List, [], ◌∷◌, Result, ok, err,
}
use edgehog_device_runtime.Base.State.{Stateful, give, ◌>>=◌, ◌>>◌}
use edgehog_device_runtime.Jobs.{
  Job, JobStatus, JobType, file_transfer, done, error, Table, next_job, update, delete, insert_job,
}
use edgehog_device_runtime.Transfer.Errno.{success_code, to_errno, other}

pub data Direction : Type 0 where
  download upload : Direction

-- A request with its fields as they are encoded.
pub record Request : Type 0 where
  pub direction : Direction
  pub id : ℕ
  pub payload : ℕ

-- An error's report, as an opaque number.
abbrev pub Report : Type 0
Report = ℕ

abbrev pub tag_of : Direction → ℕ
tag_of download = 0
tag_of upload = 1

abbrev pub direction_of_tag : ℕ → Option Direction
direction_of_tag zero = some download
direction_of_tag (suc zero) = some upload
direction_of_tag _ = none

pub data Call : Type 0 where
  query poll_cancel : Call
  transfer : Request → Call
  respond : Direction → ℕ → ℕ → Call

pub record World : Type 0 where
  pub table : Table
  pub calls : List Call

pub record Env : Type 0 where
  pub database : List Call → Option Report
  pub decode : Direction → List ℕ → Option ℕ
  pub transfer : List Call → Result Report (Unit {0})
  pub send : List Call → Option Report
  pub is_cancelled : List Call → Bool

abbrev pub Run : Type 0 → Type 0
Run A = Stateful World Report A

abbrev pub record_call : Call → World → World
record_call c w = record w { calls = c ∷ w.calls }

abbrev pub or_report : {A : Type 0} → Option Report → A → World → World → Result Report A × World
or_report none a failed w = (ok a, w)
or_report (some e) a failed w = (err e, failed)

module _ (env : Env) where
  -- One access to the database. An access that fails changes nothing.
  abbrev pub access : {A : Type 0} → (Table → A × Table) → Run A
  access f w =
      let w' = record_call query w in
      let (a, t) = f w'.table in or_report (env.database w'.calls) a w' (record w' { table = t })

  unfoldable pub change : (Table → Table) → Run (Unit {0})
  change f = access (λ t. (tt, f t))

  abbrev pub with_payload : Direction → Job → Option ℕ → Option Request
  with_payload d j none = none
  with_payload d j (some p) = some (record { direction = d; id = j.id; payload = p })

  -- `TryFrom<Job> for Request`
  abbrev pub request_as : Job → Option Direction → Option Request
  request_as j none = none
  request_as j (some d) = with_payload d j (env.decode d j.bytes)

  unfoldable pub request_of : Job → Option Request
  request_of j = request_as j (direction_of_tag j.tag)

  -- the report of a job that is no request
  abbrev pub undecoded : Report
  undecoded = 0

  abbrev pub decoded : Option Request → Run (Option Request)
  decoded none w = (err undecoded, w)
  decoded (some r) w = (ok (some r), w)

  unfoldable pub to_request : Option Job → Run (Option Request)
  to_request none = give none
  to_request (some j) = decoded (request_of j)

  unfoldable pub next_request : Run (Option Request)
  next_request = do job ← access (next_job file_transfer); to_request job

  unfoldable pub send_response : Direction → ℕ → ℕ → Run (Unit {0})
  send_response d id code w =
      let w' = record_call (respond d id code) w in or_report (env.send w'.calls) tt w' w'

  unfoldable pub job_done : Request → Run (Unit {0})
  job_done r = do
    change (update r.id file_transfer (tag_of r.direction) done)
    send_response r.direction r.id success_code
    change (delete r.id file_transfer (tag_of r.direction))

  unfoldable pub job_error : Request → Run (Unit {0})
  job_error r = do
    change (update r.id file_transfer (tag_of r.direction) error)
    send_response r.direction r.id (to_errno other)
    change (delete r.id file_transfer (tag_of r.direction))

  unfoldable pub close_job : Request → Result Report (Unit {0}) → Run (Unit {0})
  close_job r (ok _) = job_done r
  close_job r (err _) = job_error r

  unfoldable pub handle : Request → Run (Unit {0})
  handle r w = let w' = record_call (transfer r) w in close_job r (env.transfer w'.calls) w'

  -- What is left of the loop: `none` if the fuel runs out.
  abbrev pub Loop : Type 0
  Loop = Option (Result Report (Unit {0})) × World

  -- `while let Some(job) = … && !cancel.is_cancelled()`: an error of `handle` is only logged.
  unfoldable pub jobs : ℕ → World → Loop
  jobs zero w = (none, w)
  jobs (suc fuel) w =
      let (found, w₁) = next_request w in
      elim found [
        | err e ↦ (some (err e), w₁)
        | ok none ↦ (some (ok tt), w₁)
        | ok (some r) ↦
            let w₂ = record_call poll_cancel w₁ in
            elim (env.is_cancelled w₂.calls) [
              | true ↦ (some (ok tt), w₂)
              | false ↦ jobs fuel (handle r w₂).1
            ]
      ]
