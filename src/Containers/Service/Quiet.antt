-- ===== src/Containers/Service/Quiet.antt =====
-- What the work of service/mod.rs of edgehog-device-runtime-containers reports by itself.
use mathlib.Core.List.{reverse}
use edgehog_device_runtime.Base.{
  ℕ, ◌≡◌, refl, Option, none, some, List, [], ◌∷◌, Result, ok, err, ◌>>◌,
}
use edgehog_device_runtime.Containers.Resource.{
  PropertyStatus, stopped_status, started_status, Call, Deployment, DeploymentUpdate, Env,
  EventStatus, ResourceType, Run, SecurityEvent, ServiceError, State, absent, ask, attempt, check,
  container, deployment, deployment_fail, deployment_init, deployment_ok, device_mapping,
  device_request, do_call, down, each, env_file, existing, fetch, fetch_known, known, create_absent,
  delete_present, file_bind, image, network, notify, recreatable, send_event, send_status,
  start_container, start_init, start_ok, stop_container, stop_init, stop_ok, undeployment_fail,
  undeployment_init, undeployment_ok, unset, up, volume,
}
use edgehog_device_runtime.Containers.Plan.{
  Silent, Silent-ask, Silent-call, Silent-bind, Silent-each, attempt-Silent, Quiet,
  quiet_run-Silent,
}
use edgehog_device_runtime.Containers.Service.{
  start_one, start_deployment, if_present, stop_one, stop_deployment, delete_deployment,
  restart_one, restart_failed, log_failure, update_deployment, log_security, logged,
}

-- An event sent, or a security event of a whole deployment.
pub data Note : Type 0 where
  told : EventStatus → ℕ → Note
  begun succeeded failed : Note

abbrev pub note_of_security : SecurityEvent → Option Note
note_of_security deployment_init = some begun
note_of_security deployment_ok = some succeeded
note_of_security deployment_fail = some failed
note_of_security undeployment_init = some begun
note_of_security undeployment_ok = some succeeded
note_of_security undeployment_fail = some failed
note_of_security _ = none

abbrev pub note_of : Call → Option Note
note_of (send_event e id) = some (told e.status id)
note_of (notify e) = note_of_security e
note_of _ = none

module _ (env : Env) where
  do_call-Silent : (c : Call) → note_of c ≡ none → Silent note_of (do_call env c)
  do_call-Silent c e = Silent-ask note_of c env.act e

  known-Silent :
      (rt : ResourceType) (id : ℕ) (o : Option State) → Silent note_of (known env rt id o)
  unfolding known
  known-Silent rt id none h = refl
  known-Silent rt id (some state) h = refl

  fetch_known-Silent : (rt : ResourceType) (id : ℕ) → Silent note_of (fetch_known env rt id)
  unfolding fetch_known
  fetch_known-Silent rt id =
      Silent-bind note_of (ask (fetch rt id) (env.fetch rt id)) (known env rt id)
        (Silent-ask note_of (fetch rt id) (env.fetch rt id) refl) (known-Silent rt id)

  create_absent-Silent :
      (rt : ResourceType) (id : ℕ) (s : State) → Silent note_of (create_absent env rt id s)
  unfolding create_absent
  create_absent-Silent rt id absent h = refl
  create_absent-Silent rt id recreatable h = refl
  create_absent-Silent rt id existing h = refl

  delete_present-Silent :
      (rt : ResourceType) (id : ℕ) (s : State) → Silent note_of (delete_present env rt id s)
  unfolding delete_present
  delete_present-Silent rt id absent h = refl
  delete_present-Silent rt id recreatable h = refl
  delete_present-Silent rt id existing h = refl

  if_present-Silent :
      (c : Call) (s : State) → note_of c ≡ none → Silent note_of (if_present env c s)
  unfolding if_present
  if_present-Silent c absent e = λ h. refl
  if_present-Silent c recreatable e = do_call-Silent c e
  if_present-Silent c existing e = do_call-Silent c e

  up-Silent : (rt : ResourceType) (id : ℕ) → Silent note_of (up env rt id)
  unfolding up
  up-Silent rt id =
      Silent-bind note_of (fetch_known env rt id) (create_absent env rt id)
        (fetch_known-Silent rt id) (create_absent-Silent rt id)

  down-Silent : (rt : ResourceType) (id : ℕ) → Silent note_of (down env rt id)
  unfolding down
  down-Silent rt id =
      Silent-bind note_of (fetch_known env rt id)
        (λ s. delete_present env rt id s >> do_call env (unset rt id)) (fetch_known-Silent rt id)
        (λ s.
          Silent-bind note_of (delete_present env rt id s) (λ _. do_call env (unset rt id))
            (delete_present-Silent rt id s) (λ _. do_call-Silent (unset rt id) refl))

  abbrev ups : ResourceType → List ℕ → Quiet note_of
  ups rt ids = (each (up env rt) ids, Silent-each note_of (up env rt) ids (up-Silent rt))

  abbrev downs : ResourceType → List ℕ → Quiet note_of
  downs rt ids = (each (down env rt) ids, Silent-each note_of (down env rt) ids (down-Silent rt))

  abbrev calls : (c : ℕ → Call) → ((id : ℕ) → note_of (c id) ≡ none) → List ℕ → Quiet note_of
  calls c e ids = (
    each (λ i. do_call env (c i)) ids,
    Silent-each note_of (λ i. do_call env (c i)) ids (λ i. do_call-Silent (c i) (e i)),
  )

  abbrev logs : (e : SecurityEvent) → note_of_security e ≡ none → Quiet note_of
  logs e eq = (log_security e, Silent-call note_of (notify e) tt eq)

  abbrev status : ℕ → PropertyStatus → Quiet note_of
  status id s = (do_call env (send_status id s), do_call-Silent (send_status id s) refl)

  start_one-Silent : (id : ℕ) → Silent note_of (start_one env id)
  unfolding start_one
  start_one-Silent id =
      quiet_run-Silent note_of (up env container id, up-Silent container id)
        ((do_call env (start_container id), do_call-Silent (start_container id) refl) ∷ [])

  pub start_deployment-Silent :
      (id : ℕ) (d : Deployment) → Silent note_of (start_deployment env id d)
  unfolding start_deployment
  start_deployment-Silent id d = quiet_run-Silent note_of (logs start_init refl) (
      ups image d.images
      ∷ ups volume d.volumes
      ∷ ups network d.networks
      ∷ calls (check file_bind) (λ _. refl) d.file_binds
      ∷ calls (check env_file) (λ _. refl) d.env_files
      ∷ (
        each (start_one env) d.containers,
        Silent-each note_of (start_one env) d.containers start_one-Silent,
      )
      ∷ status id started_status
      ∷ logs start_ok refl
      ∷ [])

  stop_one-Silent : (id : ℕ) → Silent note_of (stop_one env id)
  unfolding stop_one
  stop_one-Silent id =
      Silent-bind note_of (fetch_known env container id) (if_present env (stop_container id))
        (fetch_known-Silent container id) (λ s. if_present-Silent (stop_container id) s refl)

  pub stop_deployment-Silent : (id : ℕ) (ids : List ℕ) → Silent note_of (stop_deployment env id ids)
  unfolding stop_deployment
  stop_deployment-Silent id ids = quiet_run-Silent note_of (logs stop_init refl) (
      (each (stop_one env) ids, Silent-each note_of (stop_one env) ids stop_one-Silent)
      ∷ status id stopped_status
      ∷ logs stop_ok refl
      ∷ [])

  restart_one-Silent : (id : ℕ) → Silent note_of (restart_one env id)
  unfolding restart_one
  restart_one-Silent id =
      Silent-bind note_of (fetch_known env container id) (if_present env (start_container id))
        (fetch_known-Silent container id) (λ s. if_present-Silent (start_container id) s refl)

  pub restart_failed-Silent : (id : ℕ) (ids : List ℕ) → Silent note_of (restart_failed env id ids)
  unfolding restart_failed
  restart_failed-Silent id ids =
      quiet_run-Silent note_of
        (each (restart_one env) ids, Silent-each note_of (restart_one env) ids restart_one-Silent)
        (status id started_status ∷ [])

  pub delete_deployment-Silent :
      (id : ℕ) (d : Deployment) → Silent note_of (delete_deployment env id d)
  unfolding delete_deployment
  delete_deployment-Silent id d =
      quiet_run-Silent note_of (downs container (reverse d.containers)) (
        downs volume d.volumes
        ∷ downs network d.networks
        ∷ downs image d.images
        ∷ calls (unset device_mapping) (λ _. refl) d.device_mappings
        ∷ calls (unset device_request) (λ _. refl) d.device_requests
        ∷ calls (unset file_bind) (λ _. refl) d.file_binds
        ∷ calls (unset env_file) (λ _. refl) d.env_files
        ∷ (do_call env (unset deployment id), do_call-Silent (unset deployment id) refl)
        ∷ [])

  log_failure-Silent : (r : Result ServiceError (Unit {0})) → Silent note_of (log_failure env r)
  unfolding log_failure
  log_failure-Silent (ok _) h = refl
  log_failure-Silent (err e) h = refl

  logged-Silent : (m : Run (Unit {0})) → Silent note_of m → Silent note_of (logged env m)
  logged-Silent m p =
      Silent-bind note_of (attempt m) (log_failure env) (attempt-Silent note_of m p)
        log_failure-Silent

  pub update_deployment-Silent :
      (b : DeploymentUpdate) (ids : List ℕ) (d : Deployment)
      → Silent note_of (update_deployment env b ids d)
  unfolding update_deployment
  update_deployment-Silent b ids d =
      Silent-bind note_of (logged env (stop_deployment env b.from ids))
        (λ _. logged env (start_deployment env b.to d))
        (logged-Silent (stop_deployment env b.from ids) (stop_deployment-Silent b.from ids))
        (λ _. logged-Silent (start_deployment env b.to d) (start_deployment-Silent b.to d))
