-- ===== src/Transfer/Worker/Handled.antt =====
-- What the worker of src/file_transfer/mod.rs does with a job that it took.
use edgehog_device_runtime.Base.{
  ℕ, ◌≡◌, refl, ap, ◌⊎◌, inl, inr, Option, none, some, List, [], ◌∷◌, Result, ok, err, Option-cases,
}
use edgehog_device_runtime.Jobs.{JobStatus, file_transfer, done, error, Table, update, delete}
use edgehog_device_runtime.Transfer.Errno.{success_code, to_errno}
use edgehog_device_runtime.Transfer.Worker.{
  Direction, Request, Report, tag_of, Call, query, poll_cancel, respond, transfer, World, Env,
  change, send_response, job_done, job_error, close_job, handle, record_call,
}

-- the responses that were passed on, with their code
abbrev pub keep_response : Call → List (Direction × ℕ × ℕ) → List (Direction × ℕ × ℕ)
keep_response (respond d id code) rest = (d, id, code) ∷ rest
keep_response _ rest = rest

unfoldable pub responses : List Call → List (Direction × ℕ × ℕ)
responses [] = []
responses (c ∷ cs) = keep_response c (responses cs)

-- the latest response that was passed on, if its send came back without an error
abbrev pub if_sent : Option Report → Direction × ℕ × ℕ → Option (Direction × ℕ × ℕ)
if_sent none r = some r
if_sent (some e) r = none

abbrev pub keep_first :
    Call → Option Report → Option (Direction × ℕ × ℕ) → Option (Direction × ℕ × ℕ)
keep_first (respond d id code) o rest = if_sent o (d, id, code)
keep_first query o rest = rest
keep_first poll_cancel o rest = rest
keep_first (transfer r) o rest = rest

unfoldable pub first_sent : Env → List Call → Option (Direction × ℕ × ℕ)
first_sent env [] = none
first_sent env (c ∷ cs) = keep_first c (env.send (c ∷ cs)) (first_sent env cs)

abbrev pub status_of : Result Report (Unit {0}) → JobStatus
status_of (ok _) = done
status_of (err _) = error

abbrev pub code_of : Result Report (Unit {0}) → ℕ
code_of (ok _) = success_code
code_of (err _) = 22

-- the table with the job's final status
abbrev pub marked : Request → Result Report (Unit {0}) → Table → Table
marked r result t = update r.id file_transfer (tag_of r.direction) (status_of result) t

abbrev pub IsErr : Result Report (Unit {0}) → Type 0
IsErr (ok _) = ⊥
IsErr (err _) = Unit

-- What happens when a job is closed: its status is not written; or it is, and the response passed on; or
-- the response is sent without an error, and the job deleted after it.
abbrev pub Closes :
    Env → Request → Result Report (Unit {0}) → World → Result Report (Unit {0}) × World → Type 0
Closes env r result w (o, w') =
    (IsErr o × (w'.table ≡ w.table) × (responses w'.calls ≡ responses w.calls))
    ⊎ (IsErr o
        × (w'.table ≡ marked r result w.table)
        × (responses w'.calls ≡ (r.direction, r.id, code_of result) ∷ responses w.calls))
    ⊎ ((o ≡ ok tt)
        × (w'.table ≡ delete r.id file_transfer (tag_of r.direction) (marked r result w.table))
        × (responses w'.calls ≡ (r.direction, r.id, code_of result) ∷ responses w.calls)
        × (first_sent env w'.calls ≡ some (r.direction, r.id, code_of result)))

module _ (env : Env) where
  -- the calls of the three steps that close a job
  abbrev at_status : World → List Call
  at_status w = query ∷ w.calls

  abbrev at_send : Request → ℕ → World → List Call
  at_send r code w = respond r.direction r.id code ∷ at_status w

  abbrev at_delete : Request → ℕ → World → List Call
  at_delete r code w = query ∷ at_send r code w

  job_done-Closes : (r : Request) (w : World) → Closes env r (ok tt) w (job_done env r w)
  unfolding job_done change send_response responses first_sent
  job_done-Closes r w = elim (Option-cases (env.database (at_status w))) [
    | inr (e, failed) ↦ rw failed (inl (tt, refl, refl))
    | inl stored ↦ elim (Option-cases (env.send (at_send r success_code w))) [
      | inr (e, unsent) ↦ rw (stored, unsent) (inr (inl (tt, refl, refl)))
      | inl sent ↦ elim (Option-cases (env.database (at_delete r success_code w))) [
        | inr (e, failed) ↦ rw (stored, sent, failed) (inr (inl (tt, refl, refl)))
        | inl deleted ↦
            rw (stored, sent, deleted)
              (inr (
                inr (refl, refl, refl, ap (λ o. if_sent o (r.direction, r.id, success_code)) sent)))
      ]
    ]
  ]

  job_error-Closes :
      (r : Request) (w : World) (e : Report) → Closes env r (err e) w (job_error env r w)
  unfolding job_error change send_response responses first_sent to_errno
  job_error-Closes r w x = elim (Option-cases (env.database (at_status w))) [
    | inr (e, failed) ↦ rw failed (inl (tt, refl, refl))
    | inl stored ↦ elim (Option-cases (env.send (at_send r 22 w))) [
      | inr (e, unsent) ↦ rw (stored, unsent) (inr (inl (tt, refl, refl)))
      | inl sent ↦ elim (Option-cases (env.database (at_delete r 22 w))) [
        | inr (e, failed) ↦ rw (stored, sent, failed) (inr (inl (tt, refl, refl)))
        | inl deleted ↦
            rw (stored, sent, deleted)
              (inr (inr (refl, refl, refl, ap (λ o. if_sent o (r.direction, r.id, 22)) sent)))
      ]
    ]
  ]

  close_job-Closes :
      (r : Request) (result : Result Report (Unit {0})) (w : World)
      → Closes env r result w (close_job env r result w)
  unfolding close_job
  close_job-Closes r (ok _) w = job_done-Closes r w
  close_job-Closes r (err e) w = job_error-Closes r w e

  -- A transfer is closed by its result: the status is stored, then one response with the code of the
  -- result is passed on, then the job is deleted. With an error the job is not deleted: the table is as
  -- before, or it has the status. Without one the job is deleted, and the latest response that was
  -- passed on is that of the result, whose send came back without an error.
  pub handle-Closes :
      (r : Request) (w : World)
      → Closes env r (env.transfer (transfer r ∷ w.calls)) w (handle env r w)
  unfolding handle responses
  handle-Closes r w =
      close_job-Closes r (env.transfer (transfer r ∷ w.calls)) (record_call (transfer r) w)
