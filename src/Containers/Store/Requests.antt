-- ===== src/Containers/Store/Requests.antt =====
-- The requests of src/requests/mod.rs of edgehog-device-runtime-containers, as the store takes them in:
-- the calls of `persist_request` in src/service/events.rs.
use edgehog_device_runtime.Base.{ℕ, Option, none, some, List, [], ◌∷◌, Result, ok, err}
use edgehog_device_runtime.Containers.Resource.{
  volume, network, device_mapping, device_request, file_bind, env_file, DeploymentStatus, stopped,
  started, deleted, DeploymentUpdate,
}
use edgehog_device_runtime.Containers.Service.{
  CommandValue, start_command, stop_command, delete_command,
}
use edgehog_device_runtime.Containers.Store.{
  Store, CreateContainer, create_image, create_resource, create_container, create_deployment,
}
use edgehog_device_runtime.Containers.Store.Queries.{
  HandleError, update_deployment_status, deployment_update,
}

-- A request to create a resource has its id and that of the deployment.
pub data ContainerRequest : Type 0 where
  image_request volume_request network_request device_mapping_request : ℕ → ℕ → ContainerRequest
  device_request_request file_bind_request env_file_request : ℕ → ℕ → ContainerRequest
  container_request : CreateContainer → ℕ → ContainerRequest
  deployment_request : ℕ → List ℕ → ContainerRequest
  command_request : ℕ → CommandValue → ContainerRequest
  update_request : DeploymentUpdate → ContainerRequest

unfoldable pub status_of_command : CommandValue → DeploymentStatus
status_of_command start_command = started
status_of_command stop_command = stopped
status_of_command delete_command = deleted

abbrev pub stored : Store → Result HandleError (Unit {0}) × Store
stored s = (ok tt, s)

abbrev pub create_volume : ℕ → Store → Store
create_volume = create_resource volume

abbrev pub create_network : ℕ → Store → Store
create_network = create_resource network

abbrev pub create_device_mapping : ℕ → Store → Store
create_device_mapping = create_resource device_mapping

abbrev pub create_device_request : ℕ → Store → Store
create_device_request = create_resource device_request

abbrev pub create_file_bind : ℕ → Store → Store
create_file_bind = create_resource file_bind

abbrev pub create_env_file : ℕ → Store → Store
create_env_file = create_resource env_file

-- The operation of the store that a request asks for, where its fields can be converted.
unfoldable pub persist_converted : ContainerRequest → Store → Result HandleError (Unit {0}) × Store
persist_converted (image_request i d) s = stored (create_image i s)
persist_converted (volume_request r d) s = stored (create_volume r s)
persist_converted (network_request r d) s = stored (create_network r s)
persist_converted (device_mapping_request r d) s = stored (create_device_mapping r s)
persist_converted (device_request_request r d) s = stored (create_device_request r s)
persist_converted (file_bind_request r d) s = stored (create_file_bind r s)
persist_converted (env_file_request r d) s = stored (create_env_file r s)
persist_converted (container_request c d) s = stored (create_container c s)
persist_converted (deployment_request d cs) s = stored (create_deployment d cs s)
persist_converted (command_request d c) s = update_deployment_status d (status_of_command c) s
persist_converted (update_request u) s = deployment_update u s

abbrev pub refused_or :
    Option HandleError → ContainerRequest → Store → Result HandleError (Unit {0}) × Store
refused_or none r s = persist_converted r s
refused_or (some e) r s = (err e, s)

-- The error of a request whose fields cannot be stored, or for which the database fails by itself: it comes
-- before the commit, so that nothing is stored. What the fields beside the ids are is not modelled.
module _ (refusal : ContainerRequest → Store → Option HandleError) where
  unfoldable pub persist : ContainerRequest → Store → Result HandleError (Unit {0}) × Store
  persist r s = refused_or (refusal r s) r s

  unfoldable pub persist_all : List ContainerRequest → Store → Store
  persist_all [] s = s
  persist_all (r ∷ rs) s = persist_all rs (persist r s).1
