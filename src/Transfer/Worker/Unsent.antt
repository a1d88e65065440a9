-- ===== src/Transfer/Worker/Unsent.antt =====
-- A transfer whose response could not be sent, in the queue of src/jobs/mod.rs.
use edgehog_device_runtime.Base.{
  ℕ, ◌≡◌, refl, ◌∙◌, inl, inr, Bool, true, false, any, none, some, List, [], ◌∷◌, All, Result, ok,
  err, Bool-cases,
}
use edgehog_device_runtime.Jobs.{
  Job, pending, file_transfer, Table, update, insert_job, has_key, set_where, is_pending,
  is_in_progress, init,
}
use edgehog_device_runtime.Jobs.Keys.{any-set_where}
use edgehog_device_runtime.Transfer.Worker.{
  Request, Report, tag_of, Call, query, respond, transfer, World, Env, change, send_response,
  job_done, job_error, close_job, handle, record_call,
}
use edgehog_device_runtime.Transfer.Errno.{to_errno}
use edgehog_device_runtime.Transfer.Worker.Handled.{marked, status_of, code_of}

-- The rows with the key of this request are over: they are not pending, and not in progress.
abbrev pub IsOver : Request → Table → Type 0
IsOver r t =
    All
      (λ row.
        has_key r.id file_transfer (tag_of r.direction) row ≡ true
        → (is_pending row.job.status ≡ false) × (is_in_progress row.job.status ≡ false))
      t

marked-IsOver :
    (r : Request) (result : Result Report (Unit {0})) (t : Table) → IsOver r (marked r result t)
unfolding update set_where
marked-IsOver r result [] = tt
marked-IsOver r (ok _) (row ∷ t) =
    elim (Bool-cases (has_key r.id file_transfer (tag_of r.direction) row)) [
      | inl e ↦ rw e ((λ _. (refl, refl)), marked-IsOver r (ok tt) t)
      | inr e ↦ rw e ((λ k. absurd (cc)), marked-IsOver r (ok tt) t)
    ]
marked-IsOver r (err x) (row ∷ t) =
    elim (Bool-cases (has_key r.id file_transfer (tag_of r.direction) row)) [
      | inl e ↦ rw e ((λ _. (refl, refl)), marked-IsOver r (err x) t)
      | inr e ↦ rw e ((λ k. absurd (cc)), marked-IsOver r (err x) t)
    ]

init-IsOver : (r : Request) (t : Table) → IsOver r t → IsOver r (init t)
unfolding init set_where
init-IsOver r [] h = tt
init-IsOver r (row ∷ t) h = elim (Bool-cases (is_in_progress row.job.status)) [
  | inl e ↦ rw e ((λ k. let q = h.0 k in absurd (cc)), init-IsOver r t h.1)
  | inr e ↦ rw e (h.0, init-IsOver r t h.1)
]

-- whether a row has the key of the request
abbrev pub has_request : Request → Table → Bool
has_request r t = any (has_key r.id file_transfer (tag_of r.direction)) t

-- A job with the key of the request.
abbrev pub IsSame : Request → Job → Type 0
IsSame r j = (j.id ≡ r.id) × (j.job_type ≡ file_transfer) × (j.tag ≡ tag_of r.direction)

insert_job-same :
    (r : Request) (now : ℕ) (j : Job) (t : Table)
    → IsSame r j
    → has_request r t ≡ true
    → insert_job now j t ≡ t
unfolding insert_job
insert_job-same r now j t (p, q, k) h = rw (p, q, k, h) refl

init-has_request :
    (r : Request) (result : Result Report (Unit {0})) (t : Table)
    → has_request r t ≡ true
    → has_request r (init (marked r result t)) ≡ true
unfolding init update
init-has_request r result t h =
    any-set_where r.id file_transfer (tag_of r.direction) _ pending (marked r result t)
    ∙ any-set_where r.id file_transfer (tag_of r.direction) _ (status_of result) t
    ∙ h

module _ (env : Env) where
  abbrev at_status : Request → World → List Call
  at_status r w = query ∷ transfer r ∷ w.calls

  -- The status of the job can be stored, and the response cannot be sent.
  abbrev pub IsUnsent : Request → World → Report → Type 0
  IsUnsent r w e =
      (env.database (at_status r w) ≡ none)
      × (env.send (
            respond r.direction r.id (code_of (env.transfer (transfer r ∷ w.calls)))
            ∷ at_status r w)
          ≡ some e)

  close_job-unsent :
      (r : Request) (result : Result Report (Unit {0})) (w : World) (e : Report)
      → env.database (query ∷ w.calls) ≡ none
      → env.send (respond r.direction r.id (code_of result) ∷ query ∷ w.calls) ≡ some e
      → (close_job env r result w).1.table ≡ marked r result w.table
  unfolding close_job job_done job_error change send_response to_errno
  close_job-unsent r (ok _) w e stored unsent = rw (stored, unsent) refl
  close_job-unsent r (err x) w e stored unsent = rw (stored, unsent) refl

  handle-unsent_table :
      (r : Request) (w : World) (e : Report)
      → IsUnsent r w e
      → (handle env r w).1.table ≡ marked r (env.transfer (transfer r ∷ w.calls)) w.table
  unfolding handle
  handle-unsent_table r w e (stored, unsent) =
      close_job-unsent r (env.transfer (transfer r ∷ w.calls)) (record_call (transfer r) w) e stored
        unsent

  -- If the status of a transfer that is in the queue can be stored, and its response cannot be sent,
  -- then its job is stuck: also after a restart, which runs `init`, no row with its key is pending or
  -- in progress, so that it is not taken again and the response not sent later, and a new job with the
  -- same key is not inserted.
  pub handle-unsent :
      (r : Request) (w : World) (e : Report) (now : ℕ) (j : Job)
      → has_request r w.table ≡ true
      → IsUnsent r w e
      → IsSame r j
      → IsOver r (init (handle env r w).1.table)
        × (insert_job now j (init (handle env r w).1.table) ≡ init (handle env r w).1.table)
  handle-unsent r w e now j old unsent same =
      let result = env.transfer (transfer r ∷ w.calls) in
      rw (handle-unsent_table r w e unsent) (
        init-IsOver r (marked r result w.table) (marked-IsOver r result w.table),
        insert_job-same r now j (init (marked r result w.table)) same
            (init-has_request r result w.table old),
      )
