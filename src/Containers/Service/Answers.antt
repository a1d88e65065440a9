-- ===== src/Containers/Service/Answers.antt =====
-- What a command of service/mod.rs sends and logs.

use edgehog_device_runtime.Base.{
  ℕ, ◌∙◌, inl, inr, ◌⊎◌, ◌≡◌, refl, ap, Option, none, some, List, [], ◌∷◌, ◌++◌, Result, ok, err,
  seen,
}
use edgehog_device_runtime.Containers.Resource.{
  Deployment, Env, History, Run, ServiceError, deleting, deployment_init, error,
  find_complete_deployment, find_deployment_for_delete, load_deployment_containers, notify,
  send_event, started_event, starting, stopped_event, stopping, undeployment_init,
}
use edgehog_device_runtime.Containers.Plan.{}
use edgehog_device_runtime.Containers.Service.{
  start_deployment, stop_deployment, delete_deployment, start_reply, start_found, start, stop_reply,
  stop_found, stop, delete_reply, delete_found, delete, with_message,
}
use edgehog_device_runtime.Containers.Service.Quiet.{
  Note, told, begun, succeeded, failed, note_of, start_deployment-Silent, stop_deployment-Silent,
  delete_deployment-Silent,
}

-- What is told of a command, the latest first: a failure before or after the opening, or a success.
abbrev pub Ends : (failure opening closing before after : List Note) → Type 0
Ends failure opening closing before after =
    (after ≡ failure ++ before)
    ⊎ (after ≡ failure ++ (opening ++ before))
    ⊎ (after ≡ closing ++ (opening ++ before))

-- silent work between the opening and a reply
pub Ends-worked :
    (failure opening closing before after : List Note) (h₁ h₂ : History)
    → seen note_of h₁ ≡ opening ++ before
    → seen note_of h₂ ≡ seen note_of h₁
    → (after ≡ failure ++ seen note_of h₂) ⊎ (after ≡ closing ++ seen note_of h₂)
    → Ends failure opening closing before after
Ends-worked failure opening closing before after h₁ h₂ o s (inl e) =
    inr (inl (e ∙ ap (λ l. failure ++ l) (s ∙ o)))
Ends-worked failure opening closing before after h₁ h₂ o s (inr e) =
    inr (inr (e ∙ ap (λ l. closing ++ l) (s ∙ o)))

abbrev pub told_by : Run (Unit {0}) → History → List Note
told_by m h = seen note_of (m h).1

abbrev pub failure : ℕ → List Note
failure id = told error id ∷ failed ∷ []

abbrev Replies : (failure closing : List Note) → Run (Unit {0}) → History → Type 0
Replies failure closing m h =
    (told_by m h ≡ failure ++ seen note_of h) ⊎ (told_by m h ≡ closing ++ seen note_of h)

module _ (env : Env) where
  start_reply-Replies :
      (id : ℕ) (r : Result ServiceError (Unit {0})) (h : History)
      → Replies (failure id) (told started_event id ∷ succeeded ∷ []) (start_reply env id r) h
  unfolding start_reply
  start_reply-Replies id (ok _) h = inr refl
  start_reply-Replies id (err e) h = inl refl

  start_found-Ends :
      (id : ℕ) (r : Result ServiceError (Option Deployment)) (h : History)
      → Ends
          (failure id)
          (told starting id ∷ [])
          (told started_event id ∷ succeeded ∷ [])
          (seen note_of h)
          (told_by (start_found env id r) h)
  unfolding start_found
  start_found-Ends id (err e) h = inl refl
  start_found-Ends id (ok none) h = inl refl
  start_found-Ends id (ok (some d)) h =
      let h₁ = send_event (with_message starting "") id ∷ h in
      let (r, h₂) = start_deployment env id d h₁ in
      Ends-worked (failure id) (told starting id ∷ []) (told started_event id ∷ succeeded ∷ [])
        (seen note_of h) (told_by (start_reply env id r) h₂) h₁ h₂ refl
        (start_deployment-Silent env id d h₁) (start_reply-Replies id r h₂)

  -- The command to start a deployment logs its beginning, then either fails with an `Error` event and
  -- a logged failure, before or after the `Starting` event, or succeeds with a `Started` event after
  -- it and a logged success. No other event is sent and no other outcome of a deployment logged,
  -- whatever the store and the device answer.
  pub start-Ends :
      (id : ℕ) (h : History)
      → Ends
          (failure id)
          (told starting id ∷ [])
          (told started_event id ∷ succeeded ∷ [])
          (begun ∷ seen note_of h)
          (told_by (start env id) h)
  unfolding start
  start-Ends id h =
      let h₁ = find_complete_deployment id ∷ notify deployment_init ∷ h in
      start_found-Ends id (env.find_deployment h₁) h₁

  stop_reply-Replies :
      (id : ℕ) (r : Result ServiceError (Unit {0})) (h : History)
      → Replies (told error id ∷ []) (told stopped_event id ∷ []) (stop_reply env id r) h
  unfolding stop_reply
  stop_reply-Replies id (ok _) h = inr refl
  stop_reply-Replies id (err e) h = inl refl

  stop_found-Ends :
      (id : ℕ) (r : Result ServiceError (Option (List ℕ))) (h : History)
      → Ends
          (told error id ∷ [])
          (told stopping id ∷ [])
          (told stopped_event id ∷ [])
          (seen note_of h)
          (told_by (stop_found env id r) h)
  unfolding stop_found
  stop_found-Ends id (err e) h = inl refl
  stop_found-Ends id (ok none) h = inl refl
  stop_found-Ends id (ok (some ids)) h =
      let h₁ = send_event (with_message stopping "") id ∷ h in
      let (r, h₂) = stop_deployment env id ids h₁ in
      Ends-worked (told error id ∷ []) (told stopping id ∷ []) (told stopped_event id ∷ [])
        (seen note_of h) (told_by (stop_reply env id r) h₂) h₁ h₂ refl
        (stop_deployment-Silent env id ids h₁) (stop_reply-Replies id r h₂)

  -- The command to stop a deployment is answered by an `Error` event, before or after the `Stopping`
  -- event, or by a `Stopped` event after it, and by no other, whatever the store and the device answer.
  pub stop-Ends :
      (id : ℕ) (h : History)
      → Ends
          (told error id ∷ [])
          (told stopping id ∷ [])
          (told stopped_event id ∷ [])
          (seen note_of h)
          (told_by (stop env id) h)
  unfolding stop
  stop-Ends id h =
      let h₁ = load_deployment_containers id ∷ h in stop_found-Ends id (env.find_containers h₁) h₁

  delete_reply-Replies :
      (id : ℕ) (r : Result ServiceError (Unit {0})) (h : History)
      → Replies (failure id) (succeeded ∷ []) (delete_reply env id r) h
  unfolding delete_reply
  delete_reply-Replies id (ok _) h = inr refl
  delete_reply-Replies id (err e) h = inl refl

  delete_found-Ends :
      (id : ℕ) (r : Result ServiceError (Option Deployment)) (h : History)
      → Ends
          (failure id)
          (told deleting id ∷ [])
          (succeeded ∷ [])
          (seen note_of h)
          (told_by (delete_found env id r) h)
  unfolding delete_found
  delete_found-Ends id (err e) h = inl refl
  delete_found-Ends id (ok none) h = inl refl
  delete_found-Ends id (ok (some d)) h =
      let h₁ = send_event (with_message deleting "") id ∷ h in
      let (r, h₂) = delete_deployment env id d h₁ in
      Ends-worked (failure id) (told deleting id ∷ []) (succeeded ∷ []) (seen note_of h)
        (told_by (delete_reply env id r) h₂) h₁ h₂ refl (delete_deployment-Silent env id d h₁)
        (delete_reply-Replies id r h₂)

  -- The command to delete a deployment logs its beginning, then either fails with an `Error` event and
  -- a logged failure, before or after the `Deleting` event, or logs a success after it, with no event.
  pub delete-Ends :
      (id : ℕ) (h : History)
      → Ends
          (failure id)
          (told deleting id ∷ [])
          (succeeded ∷ [])
          (begun ∷ seen note_of h)
          (told_by (delete env id) h)
  unfolding delete
  delete-Ends id h =
      let h₁ = find_deployment_for_delete id ∷ notify undeployment_init ∷ h in
      delete_found-Ends id (env.find_deployment h₁) h₁
