-- ===== src/Containers/Service.antt =====
-- The service: service/mod.rs of edgehog-device-runtime-containers.
pub mod Order
pub mod Quiet
pub mod Answers
pub mod Updates
pub mod Paid
pub mod Started
use mathlib.Core.List.{reverse}
use Prim.Native.String.{◌++◌}
use edgehog_device_runtime.Base.{
  ℕ, String, Bool, true, false, Option, none, some, List, [], ◌∷◌, Result, ok, err, Exec, pure,
  raise, call, ◌>>=◌, ◌>>◌,
}
use edgehog_device_runtime.Containers.Resource.{
  PropertyStatus, stopped_status, started_status, ResourceType, image, volume, network,
  device_mapping, device_request, file_bind, env_file, container, deployment, ResourceError,
  missing, ServiceError, resource, State, absent, existing, recreatable, Deployment,
  DeploymentStatus, received, stopped, started, deleted, EventStatus, starting, started_event,
  stopping, stopped_event, updating, deleting, error, DeploymentEvent, SecurityEvent,
  deployment_init, deployment_ok, deployment_fail, start_init, start_ok, start_fail, stop_init,
  stop_ok, stop_fail, undeployment_init, undeployment_ok, undeployment_fail, DeploymentUpdate, Call,
  fetch, publish, unset, check, start_container, stop_container, send_status, send_event, notify,
  load_to_publish, load_deployments_in, find_complete_deployment, find_deployment_for_delete,
  load_deployment_containers, load_deployment_containers_update_from, Env, Run, ask, attempt, each,
  do_call, fetch_known, refresh, up, down,
}
unfoldable pub use edgehog_device_runtime.Containers.Deployments.{
  start_one, start_deployment, if_present, stop_one, stop_deployment, delete_deployment,
  restart_one, restart_failed, log_failure, update_deployment,
}
pub use edgehog_device_runtime.Containers.Deployments.{logged, log_security}

pub data CommandValue : Type 0 where
  start_command stop_command delete_command : CommandValue

pub data ContainerEvent : Type 0 where
  resource_event : ResourceType → ℕ → ℕ → ContainerEvent
  deployment_cmd : ℕ → CommandValue → ContainerEvent
  deployment_update : DeploymentUpdate → ContainerEvent
  refresh_event : ResourceType → ℕ → ContainerEvent

abbrev pub with_message : EventStatus → String → DeploymentEvent
with_message status text = record { status = status; message = text; add_info = [] }

-- The result of a send is only logged.
abbrev pub send : DeploymentEvent → ℕ → Run (Unit {0})
send e id = call (send_event e id) (λ _. tt)

module _ (env : Env) where
  abbrev pub with_error : EventStatus → ServiceError → DeploymentEvent
  with_error status e = record {
    status = status;
    message = env.error_message e;
    add_info = env.error_sources e;
  }

  abbrev pub not_found : ℕ → DeploymentEvent
  not_found id = with_message error (env.uuid_text id ++ " not found")

  unfoldable pub start_reply : ℕ → Result ServiceError (Unit {0}) → Run (Unit {0})
  start_reply id (err e) = do
    log_security start_fail
    log_security deployment_fail
    send (with_error error e) id
  start_reply id (ok _) = do log_security deployment_ok; send (with_message started_event "") id

  unfoldable pub start_found : ℕ → Result ServiceError (Option Deployment) → Run (Unit {0})
  start_found id (err e) = do log_security deployment_fail; send (with_error error e) id
  start_found id (ok none) = do log_security deployment_fail; send (not_found id) id
  start_found id (ok (some d)) = do
    send (with_message starting "") id
    r ← attempt (start_deployment env id d)
    start_reply id r

  unfoldable pub start : ℕ → Run (Unit {0})
  start id = do
    log_security deployment_init
    found ← attempt (ask (find_complete_deployment id) env.find_deployment)
    start_found id found

  unfoldable pub stop_reply : ℕ → Result ServiceError (Unit {0}) → Run (Unit {0})
  stop_reply id (err e) = do log_security stop_fail; send (with_error error e) id
  stop_reply id (ok _) = send (with_message stopped_event "") id

  unfoldable pub stop_found : ℕ → Result ServiceError (Option (List ℕ)) → Run (Unit {0})
  stop_found id (err e) = send (with_error error e) id
  stop_found id (ok none) = send (not_found id) id
  stop_found id (ok (some containers)) = do
    send (with_message stopping "") id
    r ← attempt (stop_deployment env id containers)
    stop_reply id r

  unfoldable pub stop : ℕ → Run (Unit {0})
  stop id = do
    found ← attempt (ask (load_deployment_containers id) env.find_containers)
    stop_found id found

  unfoldable pub delete_reply : ℕ → Result ServiceError (Unit {0}) → Run (Unit {0})
  delete_reply id (err e) = do log_security undeployment_fail; send (with_error error e) id
  delete_reply id (ok _) = log_security undeployment_ok

  unfoldable pub delete_found : ℕ → Result ServiceError (Option Deployment) → Run (Unit {0})
  delete_found id (err e) = do log_security undeployment_fail; send (with_error error e) id
  delete_found id (ok none) = do log_security undeployment_fail; send (not_found id) id
  delete_found id (ok (some d)) = do
    send (with_message deleting "") id
    r ← attempt (delete_deployment env id d)
    delete_reply id r

  unfoldable pub delete : ℕ → Run (Unit {0})
  delete id = do
    log_security undeployment_init
    found ← attempt (ask (find_deployment_for_delete id) env.find_deployment)
    delete_found id found

  unfoldable pub update_reply :
      DeploymentUpdate → List ℕ → Result ServiceError (Unit {0}) → Run (Unit {0})
  update_reply bundle to_stop (err e) = do
    log_security deployment_fail
    send (with_error error e) bundle.from
    attempt (restart_failed env bundle.from to_stop)
    pure tt
  update_reply bundle to_stop (ok _) = log_security deployment_ok

  unfoldable pub update_to :
      DeploymentUpdate → List ℕ → Result ServiceError (Option Deployment) → Run (Unit {0})
  update_to bundle to_stop (err e) = do
    log_security deployment_fail
    send (with_error error e) bundle.to
  update_to bundle to_stop (ok none) = do
    log_security deployment_fail
    send (not_found bundle.to) bundle.to
  update_to bundle to_stop (ok (some to_start)) = do
    send (with_message updating "") bundle.from
    r ← attempt (update_deployment env bundle to_stop to_start)
    update_reply bundle to_stop r

  unfoldable pub update_from :
      DeploymentUpdate → Result ServiceError (Option (List ℕ)) → Run (Unit {0})
  update_from bundle (err e) = do
    log_security deployment_fail
    send (with_error error e) bundle.from
  update_from bundle (ok none) = do
    log_security deployment_fail
    send (not_found bundle.from) bundle.from
  update_from bundle (ok (some to_stop)) = do
    found ← attempt (ask (find_complete_deployment bundle.to) env.find_deployment)
    update_to bundle to_stop found

  unfoldable pub update : DeploymentUpdate → Run (Unit {0})
  update bundle = do
    log_security deployment_init
    found ← attempt (ask (load_deployment_containers_update_from bundle) env.find_containers)
    update_from bundle found

  -- the resources that can change on the device
  abbrev is_refreshable : ResourceType → Bool
  is_refreshable image = true
  is_refreshable volume = true
  is_refreshable network = true
  is_refreshable container = true
  is_refreshable _ = false

  unfoldable pub refresh_resource : ResourceType → ℕ → Run (Unit {0})
  refresh_resource rt id = elim (is_refreshable rt) [
    | false ↦ pure tt
    | true ↦ (do attempt (refresh env rt id); pure tt)
  ]

  unfoldable pub publish_reply : ℕ → Result ServiceError (Unit {0}) → Run (Unit {0})
  publish_reply deployment_id (ok _) = pure tt
  publish_reply deployment_id (err e) = send (with_error error e) deployment_id

  unfoldable pub resource_req : ResourceType → ℕ → ℕ → Run (Unit {0})
  resource_req rt id deployment_id = do
    r ← attempt (do_call env (publish rt id))
    publish_reply deployment_id r

  unfoldable pub on_event : ContainerEvent → Run (Unit {0})
  on_event (resource_event rt id deployment_id) = resource_req rt id deployment_id
  on_event (deployment_cmd id start_command) = start id
  on_event (deployment_cmd id stop_command) = stop id
  on_event (deployment_cmd id delete_command) = delete id
  on_event (deployment_update bundle) = update bundle
  on_event (refresh_event rt id) = refresh_resource rt id

  unfoldable pub publish_all : ResourceType → Call → Run (Unit {0})
  publish_all rt source = do ids ← ask source env.load; each (λ id. do_call env (publish rt id)) ids

  unfoldable pub publish_received : Run (Unit {0})
  publish_received = do
    publish_all image (load_to_publish image)
    publish_all volume (load_to_publish volume)
    publish_all network (load_to_publish network)
    publish_all device_mapping (load_to_publish device_mapping)
    publish_all device_request (load_to_publish device_request)
    publish_all file_bind (load_to_publish file_bind)
    publish_all env_file (load_to_publish env_file)
    publish_all container (load_to_publish container)
    publish_all deployment (load_deployments_in received)

  unfoldable pub init_deployments : DeploymentStatus → (ℕ → Run (Unit {0})) → Run (Unit {0})
  init_deployments status op = do ids ← ask (load_deployments_in status) env.load; each op ids

  unfoldable pub initialize : Run (Unit {0})
  initialize = do
    publish_received
    init_deployments deleted delete
    init_deployments stopped stop
    init_deployments started start
