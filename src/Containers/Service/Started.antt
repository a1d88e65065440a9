-- ===== src/Containers/Service/Started.antt =====
-- When a deployment is reported as started.

use edgehog_device_runtime.Base.{
  ℕ, onto, ◌≡◌, refl, Option, none, some, List, ◌∷◌, Result, ok, err, Progress, seen,
}
use edgehog_device_runtime.Containers.Resource.{
  Deployment, Env, History, ServiceError, deployment_init, find_complete_deployment, notify,
  send_event, started_event, starting,
}
use edgehog_device_runtime.Containers.Plan.{}
use edgehog_device_runtime.Containers.Service.{
  start_deployment, start_reply, start_found, start, with_message,
}
use edgehog_device_runtime.Containers.Service.Quiet.{Note, told}
use edgehog_device_runtime.Containers.Service.Answers.{told_by}
use edgehog_device_runtime.Containers.Service.Paid.{to_create, Pays, begin, start-Pays}
use edgehog_device_runtime.Containers.Service.Order.{
  Step, step_of, start_plan, start_deployment-Progress,
}

-- the deployment that is found, if one is
abbrev pub RunsPlan :
    ℕ → Result ServiceError (Option Deployment) → (before after : List Step) → Type 0
RunsPlan id found before after =
    (d : Deployment) × (found ≡ ok (some d)) × (after ≡ onto (start_plan id d) before)

module _ (env : Env) where
  start_reply-done :
      (id : ℕ) (r : Result ServiceError (Unit {0})) (h : History) (plan before : List Step)
      (rest : List Note)
      → Progress plan r before (seen step_of h)
      → told_by (start_reply env id r) h ≡ told started_event id ∷ rest
      → seen step_of (start_reply env id r h).1 ≡ onto plan before
  unfolding start_reply
  start_reply-done id (ok _) h plan before rest p t = p
  start_reply-done id (err e) h plan before rest p t = absurd (cc)

  start_found-done :
      (id : ℕ) (r : Result ServiceError (Option Deployment)) (h : History) (rest : List Note)
      → told_by (start_found env id r) h ≡ told started_event id ∷ rest
      → RunsPlan id r (seen step_of h) (seen step_of (start_found env id r h).1)
  unfolding start_found
  start_found-done id (err e) h rest t = absurd (cc)
  start_found-done id (ok none) h rest t = absurd (cc)
  start_found-done id (ok (some d)) h rest t =
      let h₁ = send_event (with_message starting "") id ∷ h in
      let (r, h₂) = start_deployment env id d h₁ in
      (
        d,
        refl,
        start_reply-done id r h₂ (start_plan id d) (seen step_of h) rest
            (start_deployment-Progress env id d h₁) t,
      )

  -- If the last that a command to start a deployment tells is a `Started` event, the store has the
  -- deployment and every step of its plan was taken, in order: all resources looked up, all containers
  -- started, the status sent. A resource that is found not to be on the device, or to be created anew, is
  -- created there at once, by the call after the one that found it.
  pub start-done :
      (id : ℕ) (h : History) (rest : List Note)
      → told_by (start env id) h ≡ told started_event id ∷ rest
      → RunsPlan id
          (env.find_deployment (find_complete_deployment id ∷ notify deployment_init ∷ h))
          (seen step_of h)
          (seen step_of (start env id h).1)
        × Pays env to_create h none (start env id h).1
  unfolding start
  start-done id h rest t =
      let h₁ = find_complete_deployment id ∷ notify deployment_init ∷ h in
      (start_found-done id (env.find_deployment h₁) h₁ rest t, start-Pays env h id h begin)
