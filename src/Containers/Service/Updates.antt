-- ===== src/Containers/Service/Updates.antt =====
-- An update of a deployment to another: what is told of it.

use edgehog_device_runtime.Base.{
  ℕ, ◌≡◌, refl, ap, ◌∙◌, Option, none, some, List, ◌∷◌, ◌++◌, Result, ok, err, seen,
}
use edgehog_device_runtime.Containers.Resource.{
  Deployment, DeploymentUpdate, Env, History, ServiceError, deployment_fail, deployment_init, error,
  find_complete_deployment, load_deployment_containers_update_from, notify, send_event, updating,
}
use edgehog_device_runtime.Containers.Plan.{}
use edgehog_device_runtime.Containers.Service.{
  update_deployment, update_reply, update_to, update_from, update, with_message, with_error,
}
use edgehog_device_runtime.Containers.Service.Quiet.{
  Note, told, succeeded, note_of, update_deployment-Silent, restart_failed-Silent,
}
use edgehog_device_runtime.Containers.Service.Answers.{failure, told_by}

-- What is told of the work of an update after its opening, by its result.
abbrev pub after_work : DeploymentUpdate → Result ServiceError (Unit {0}) → List Note → List Note
after_work b (ok _) before = succeeded ∷ told updating b.from ∷ before
after_work b (err e) before = failure b.from ++ (told updating b.from ∷ before)

module _ (env : Env) where
  -- What is to be told once the containers of the old deployment are known, by the deployment found.
  abbrev pub told_of_new :
      DeploymentUpdate → List ℕ → Result ServiceError (Option Deployment) → History → List Note
  told_of_new b ids (err e) h = failure b.to ++ seen note_of h
  told_of_new b ids (ok none) h = failure b.to ++ seen note_of h
  told_of_new b ids (ok (some d)) h =
      after_work b
        (update_deployment env b ids d (send_event (with_message updating "") b.from ∷ h)).0
        (seen note_of h)

  -- What is to be told of an update, by the containers found.
  abbrev pub told_of_update :
      DeploymentUpdate → Result ServiceError (Option (List ℕ)) → History → List Note
  told_of_update b (err e) h = failure b.from ++ seen note_of h
  told_of_update b (ok none) h = failure b.from ++ seen note_of h
  told_of_update b (ok (some ids)) h =
      let h₁ = find_complete_deployment b.to ∷ h in told_of_new b ids (env.find_deployment h₁) h₁

  update_reply-told :
      (b : DeploymentUpdate) (ids : List ℕ) (r : Result ServiceError (Unit {0})) (h : History)
      (before : List Note)
      → seen note_of h ≡ told updating b.from ∷ before
      → told_by (update_reply env b ids r) h ≡ after_work b r before
  unfolding update_reply
  update_reply-told b ids (ok _) h before e = rw e refl
  update_reply-told b ids (err x) h before e =
      restart_failed-Silent env b.from ids
        (send_event (with_error env error x) b.from ∷ notify deployment_fail ∷ h)
      ∙ ap (λ l. failure b.from ++ l) e

  update_to-told :
      (b : DeploymentUpdate) (ids : List ℕ) (r : Result ServiceError (Option Deployment))
      (h : History)
      → told_by (update_to env b ids r) h ≡ told_of_new b ids r h
  unfolding update_to
  update_to-told b ids (err e) h = refl
  update_to-told b ids (ok none) h = refl
  update_to-told b ids (ok (some d)) h =
      let h₁ = send_event (with_message updating "") b.from ∷ h in
      let (r, h₂) = update_deployment env b ids d h₁ in
      update_reply-told b ids r h₂ (seen note_of h) (update_deployment-Silent env b ids d h₁)

  update_from-told :
      (b : DeploymentUpdate) (r : Result ServiceError (Option (List ℕ))) (h : History)
      → told_by (update_from env b r) h ≡ told_of_update b r h
  unfolding update_from
  update_from-told b (err e) h = refl
  update_from-told b (ok none) h = refl
  update_from-told b (ok (some ids)) h =
      let h₁ = find_complete_deployment b.to ∷ h in update_to-told b ids (env.find_deployment h₁) h₁

  -- The command to update a deployment logs its beginning. If the query for the containers of the old
  -- deployment fails or finds none, a failure of the old deployment is told and nothing else; if the
  -- query for the new deployment fails or finds none, a failure of the new deployment and nothing else.
  -- Otherwise an `Updating` event of the old deployment is told, and after it a success if the work
  -- succeeds, and a failure of the old deployment if it does not. No event tells of the attempt to
  -- restart the old containers.
  pub update-told :
      (b : DeploymentUpdate) (h : History)
      → let h₁ = load_deployment_containers_update_from b ∷ notify deployment_init ∷ h in
        told_by (update env b) h ≡ told_of_update b (env.find_containers h₁) h₁
  unfolding update
  update-told b h =
      let h₁ = load_deployment_containers_update_from b ∷ notify deployment_init ∷ h in
      update_from-told b (env.find_containers h₁) h₁
