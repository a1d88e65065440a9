-- ===== src/Transfer/Worker/Loop.antt =====
-- The loop of the worker of src/file_transfer/mod.rs over the queue.
use edgehog_device_runtime.Base.{
  ℕ, zero, suc, ◌≤◌, ◌<◌, ◌≡◌, refl, sym, ap, subst, ◌∙◌, ◌⊎◌, inl, inr, Bool, true, false, Option,
  none, some, [], ◌∷◌, arith, Result, ok, err, Option-cases,
}
use edgehog_device_runtime.Jobs.{
  Job, JobStatus, is_pending, done, error, JobType, file_transfer, Table, Row, next_job, update,
  delete, has_key, set_where, delete_where,
}
use edgehog_device_runtime.Jobs.Keys.{
  Distinct, set_where-Distinct, delete_where-Distinct, apply-Distinct, next_op, apply,
}
use edgehog_device_runtime.Jobs.Drain.{
  free_count, Takes, next_job-Takes, Takes-free_count, Takes-none,
}
use edgehog_device_runtime.Transfer.Worker.{
  Request, Report, tag_of, query, poll_cancel, transfer, World, Env, Loop, next_request, request_of,
  to_request, decoded, handle, jobs, record_call,
}
use edgehog_device_runtime.Transfer.Worker.Handled.{Closes, handle-Closes, marked}

-- closing a job makes no other one free
set_where-free_count :
    (jt : JobType) (test : Row → Bool) (s : JobStatus) (t : Table)
    → is_pending s ≡ false
    → free_count jt (set_where test s t) ≤ free_count jt t
unfolding set_where free_count
set_where-free_count jt test s [] e = omega arith
set_where-free_count jt test s (r ∷ t) e = ground (arith, set_where-free_count jt test s t e)

delete_where-free_count :
    (jt : JobType) (test : Row → Bool) (t : Table)
    → free_count jt (delete_where test t) ≤ free_count jt t
unfolding delete_where free_count
delete_where-free_count jt test [] = omega arith
delete_where-free_count jt test (r ∷ t) = ground (arith, delete_where-free_count jt test t)

-- The table is sound, and has so many free jobs at most.
abbrev Has : ℕ → Table → Type 0
Has n t = Distinct t × (free_count file_transfer t ≤ n)

marked-Has :
    (r : Request) (result : Result Report (Unit {0})) (n : ℕ) (t : Table)
    → Has n t
    → Has n (marked r result t)
unfolding update
marked-Has r (ok _) n t (d, l) = (
  set_where-Distinct _ done t d,
  omega (
    arith,
    set_where-free_count file_transfer (has_key r.id file_transfer (tag_of r.direction)) done t
        refl,
  ),
)
marked-Has r (err _) n t (d, l) = (
  set_where-Distinct _ error t d,
  omega (
    arith,
    set_where-free_count file_transfer (has_key r.id file_transfer (tag_of r.direction)) error t
        refl,
  ),
)

delete-Has :
    (r : Request) (n : ℕ) (t : Table)
    → Has n t
    → Has n (delete r.id file_transfer (tag_of r.direction) t)
unfolding delete
delete-Has r n t (d, l) = (
  delete_where-Distinct _ t d,
  omega (
    arith,
    delete_where-free_count file_transfer (has_key r.id file_transfer (tag_of r.direction)) t,
  ),
)

Closes-Has :
    (env : Env) (r : Request) (result o : Result Report (Unit {0})) (n : ℕ) (w w' : World)
    → Closes env r result w (o, w')
    → Has n w.table
    → Has n w'.table
Closes-Has env r result o n w w' (inl (e, same, calls)) h = rw same h
Closes-Has env r result o n w w' (inr (inl (e, same, calls))) h =
    rw same (marked-Has r result n w.table h)
Closes-Has env r result o n w w' (inr (inr (e, same, calls, sent))) h =
    rw same (delete-Has r n (marked r result w.table) (marked-Has r result n w.table h))

module _ (env : Env) where
  handle-Has : (r : Request) (n : ℕ) (w : World) → Has n w.table → Has n (handle env r w).1.table
  handle-Has r n w h =
      let (o, w') = handle env r w in
      Closes-Has env r (env.transfer (transfer r ∷ w.calls)) o n w w' (handle-Closes env r w) h

  -- what `next_request` returns, from a table with distinct keys
  abbrev Next : Table → Result Report (Option Request) → Table → Type 0
  Next t (err e) t' = Unit
  Next t (ok none) t' = (free_count file_transfer t ≡ 0) × (t' ≡ t)
  Next t (ok (some r)) t' =
      Distinct t' × (free_count file_transfer t ≡ suc (free_count file_transfer t'))

  decoded-Next :
      (t : Table) (found : Option Request) (w : World)
      → Distinct w.table
      → free_count file_transfer t ≡ suc (free_count file_transfer w.table)
      → Next t (decoded env found w).0 (decoded env found w).1.table
  decoded-Next t none w d less = tt
  decoded-Next t (some r) w d less = (d, less)

  to_request-Next :
      (t : Table) (o : Option Job) (w : World)
      → Distinct w.table
      → Takes file_transfer t o w.table
      → Next t (to_request env o w).0 (to_request env o w).1.table
  unfolding to_request
  to_request-Next t none w d takes = (Takes-none file_transfer t w.table takes, takes.1)
  to_request-Next t (some j) w d takes =
      decoded-Next t (request_of env j) w d (Takes-free_count file_transfer t w.table j takes)

  next_job-Distinct : (t : Table) → Distinct t → Distinct (next_job file_transfer t).1
  next_job-Distinct t d = unfold apply in apply-Distinct (next_op file_transfer) t d

  next_request-Next :
      (w : World)
      → Distinct w.table
      → Next w.table (next_request env w).0 (next_request env w).1.table
  unfolding next_request
  next_request-Next w d = elim (Option-cases (env.database (query ∷ w.calls))) [
    | inr (e, failed) ↦ rw (failed, Next) tt
    | inl found ↦
        let (o, t) = next_job file_transfer w.table in
        rw found (
          to_request-Next w.table o (record { table = t; calls = query ∷ w.calls })
            (next_job-Distinct w.table d) (next_job-Takes file_transfer w.table d))
  ]

  -- The loop is over: by an error of the database or of a job that is no request, or because the token
  -- is cancelled, or because no transfer is pending.
  abbrev pub IsOver : Loop env → Type 0
  IsOver (none, w) = ⊥
  IsOver (some (err e), w) = Unit
  IsOver (some (ok _), w) =
      (free_count file_transfer w.table ≡ 0) ⊎ (env.is_cancelled w.calls ≡ true)

  -- the loop's result, by whether it was cancelled
  abbrev stop_if : Bool → World → Loop env → Loop env
  stop_if true w rest = (some (ok tt), w)
  stop_if false w rest = rest

  -- one round of the loop, by what was found
  abbrev round : ℕ → Result Report (Option Request) → World → Loop env
  round fuel (err e) w = (some (err e), w)
  round fuel (ok none) w = (some (ok tt), w)
  round fuel (ok (some r)) w =
      stop_if (env.is_cancelled (poll_cancel ∷ w.calls)) (record_call poll_cancel w)
        (jobs env fuel (handle env r (record_call poll_cancel w)).1)

  stop_if-elim :
      (b : Bool) (w : World) (rest : Loop env)
      → elim b as (λ _. Loop env) [ true ↦ (some (ok tt), w) | false ↦ rest ] ≡ stop_if b w rest
  stop_if-elim true w rest = refl
  stop_if-elim false w rest = refl

  round-elim :
      (fuel : ℕ) (found : Result Report (Option Request)) (w : World)
      → elim found as (λ _. Loop env) [
        | err e ↦ (some (err e), w)
        | ok none ↦ (some (ok tt), w)
        | ok (some r) ↦ elim (env.is_cancelled (poll_cancel ∷ w.calls)) [
          | true ↦ (some (ok tt), record_call poll_cancel w)
          | false ↦ jobs env fuel (handle env r (record_call poll_cancel w)).1
        ]
      ]
        ≡ round fuel found w
  round-elim fuel (err e) w = refl
  round-elim fuel (ok none) w = refl
  round-elim fuel (ok (some r)) w =
      let w' = record_call poll_cancel w in
      stop_if-elim (env.is_cancelled w'.calls) w' (jobs env fuel (handle env r w').1)

  jobs-round :
      (fuel : ℕ) (w : World)
      → jobs env (suc fuel) w ≡ round fuel (next_request env w).0 (next_request env w).1
  unfolding jobs
  jobs-round fuel w = let (found, w₁) = next_request env w in round-elim fuel found w₁

  -- The loop is over from every table with fewer free jobs than its fuel.
  abbrev Ends : ℕ → Type 0
  Ends fuel =
      (w : World)
      → Distinct w.table
      → free_count file_transfer w.table < fuel
      → IsOver (jobs env fuel w)

  stop_if-IsOver :
      (b : Bool) (w : World) (rest : Loop env)
      → env.is_cancelled w.calls ≡ b
      → IsOver rest
      → IsOver (stop_if b w rest)
  stop_if-IsOver true w rest e over = inr e
  stop_if-IsOver false w rest e over = over

  round-IsOver :
      (fuel : ℕ) (t : Table) (found : Result Report (Option Request)) (w : World)
      → Next t found w.table
      → free_count file_transfer t ≤ fuel
      → Ends fuel
      → IsOver (round fuel found w)
  round-IsOver fuel t (err e) w next l all = tt
  round-IsOver fuel t (ok none) w next l all = inl (ap (free_count file_transfer) next.1 ∙ next.0)
  round-IsOver fuel t (ok (some r)) w (d, less) l all =
      let n = free_count file_transfer w.table in
      let w' = record_call poll_cancel w in
      let (d', l') = handle-Has r n w' (d, omega arith) in
      stop_if-IsOver (env.is_cancelled w'.calls) w' (jobs env fuel (handle env r w').1) refl
        (all (handle env r w').1 d' (omega (arith, less, l, l')))

  -- Taking the jobs of a table with distinct keys ends, within one round more than there are pending
  -- transfers. If it ends without an error, then no transfer is pending, or it was cancelled.
  pub jobs-IsOver :
      (fuel : ℕ) (w : World)
      → Distinct w.table
      → free_count file_transfer w.table < fuel
      → IsOver (jobs env fuel w)
  jobs-IsOver zero w d l = absurd (omega (arith, l))
  jobs-IsOver (suc fuel) w d l = subst IsOver (sym (jobs-round fuel w)) (
      round-IsOver fuel w.table (next_request env w).0 (next_request env w).1
        (next_request-Next w d) (omega (arith, l)) (jobs-IsOver fuel))
