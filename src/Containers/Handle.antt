-- ===== src/Containers/Handle.antt =====
-- `ServiceHandle` of src/service/events.rs of edgehog-device-runtime-containers: a request is stored,
-- and then an event is sent to the service.
use edgehog_device_runtime.Base.{ℕ, String, Option, List, [], ◌∷◌, ◌++◌, Result, ok, err}
use edgehog_device_runtime.Containers.Resource.{
  image, volume, network, device_mapping, device_request, file_bind, env_file, container,
  deployment, DeploymentEvent, error,
}
use edgehog_device_runtime.Containers.Service.{
  ContainerEvent, resource_event, deployment_cmd, deployment_update,
}
use edgehog_device_runtime.Containers.Store.{Store}
use edgehog_device_runtime.Containers.Store.Queries.{HandleError}
use edgehog_device_runtime.Containers.Store.Requests.{
  ContainerRequest, image_request, volume_request, network_request, device_mapping_request,
  device_request_request, file_bind_request, env_file_request, container_request,
  deployment_request, command_request, update_request, persist,
}

-- `From<&ContainerRequest> for ContainerEvent`
unfoldable pub event_of : ContainerRequest → ContainerEvent
event_of (image_request i d) = resource_event image i d
event_of (volume_request i d) = resource_event volume i d
event_of (network_request i d) = resource_event network i d
event_of (device_mapping_request i d) = resource_event device_mapping i d
event_of (device_request_request i d) = resource_event device_request i d
event_of (file_bind_request i d) = resource_event file_bind i d
event_of (env_file_request i d) = resource_event env_file i d
event_of (container_request c d) = resource_event container c.id d
event_of (deployment_request d cs) = resource_event deployment d d
event_of (command_request d c) = deployment_cmd d c
event_of (update_request u) = deployment_update u

-- `ContainerRequest::deployment_id`
unfoldable pub deployment_id_of : ContainerRequest → ℕ
deployment_id_of (image_request i d) = d
deployment_id_of (volume_request i d) = d
deployment_id_of (network_request i d) = d
deployment_id_of (device_mapping_request i d) = d
deployment_id_of (device_request_request i d) = d
deployment_id_of (file_bind_request i d) = d
deployment_id_of (env_file_request i d) = d
deployment_id_of (container_request c d) = d
deployment_id_of (deployment_request d cs) = d
deployment_id_of (command_request d c) = d
deployment_id_of (update_request u) = u.from

pub data EventError : Type 0 where
  disconnected : EventError

-- how the send to the service ends: by the cancellation, by the service's exit, or in its queue
pub data SendEnd : Type 0 where
  cancelled exited queued : SendEnd

pub record ServiceHandle : Type 0 where
  pub store : Store
  -- the channel to the service, the oldest event first
  pub events : List ContainerEvent
  -- what was sent to Astarte, with the deployment
  pub sent : List (DeploymentEvent × ℕ)

-- What the store refuses, the text of an error, and that of its sources.
module _ (refusal : ContainerRequest → Store → Option HandleError)
    (error_message : HandleError → String) (error_sources : HandleError → List String) where
  abbrev pub with_error : HandleError → DeploymentEvent
  with_error e = record { status = error; message = error_message e; add_info = error_sources e }

  unfoldable pub report :
      ContainerRequest → Result HandleError (Unit {0}) × Store → ServiceHandle → ServiceHandle
  report r (ok _, s) h = record h { store = s }
  report r (err e, s) h = record h {
    store = s;
    sent = h.sent ++ (with_error e, deployment_id_of r) ∷ [];
  }

  unfoldable pub persist_request : ContainerRequest → ServiceHandle → ServiceHandle
  persist_request r h = report r (persist refusal r h.store) h

  unfoldable pub on_event :
      SendEnd → ContainerRequest → ServiceHandle → Result EventError (Unit {0}) × ServiceHandle
  on_event cancelled r h = (ok tt, persist_request r h)
  on_event exited r h = (err disconnected, persist_request r h)
  on_event queued r h =
      let h' = persist_request r h in (ok tt, record h' { events = h'.events ++ event_of r ∷ [] })
