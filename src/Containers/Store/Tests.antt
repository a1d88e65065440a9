-- ===== src/Containers/Store/Tests.antt =====
-- The store at concrete inputs: two deployments that share a container, and a container that waits.
use edgehog_device_runtime.Base.{
  ℕ, ◌≡◌, refl, true, false, Option, none, some, List, [], ◌∷◌, arith,
}
use edgehog_device_runtime.Containers.Resource.{
  Deployment, volume, network, device_mapping, device_request, file_bind, env_file,
}
use edgehog_device_runtime.Containers.Service.{start_command}
use edgehog_device_runtime.Containers.Store.{
  type_discrete, CreateContainer, Store, filter, insert_all, set_image, create_image,
  create_resource, link_all, link_resources, join_waiting, create_container, add_members,
  create_deployment,
}
use edgehog_device_runtime.Containers.Store.Queries.{
  HandleError, mem, join_resources, find_container, column, set_of, insert_idx, by_index,
  deployment_of, except, except_pairs, own, own_images, own_containers, find_deployment_for_delete,
  is_container_complete, is_deployment_complete, find_complete_deployment, count_id, set_status,
  put_status, update_deployment_status, deployment_update,
}
use edgehog_device_runtime.Containers.Store.Requests.{
  ContainerRequest, image_request, volume_request, container_request, deployment_request,
  command_request, status_of_command, persist, persist_converted, persist_all,
}
use edgehog_device_runtime.Containers.Store.Settled.{empty_store, persist_all-IsSettled}
use edgehog_device_runtime.Containers.Store.Settled.Invariant.{IsSettled}
use edgehog_device_runtime.Containers.Store.Deletes.{
  uses, uses_image, exclusive, find_deployment_for_delete-exclusive,
}
use edgehog_device_runtime.Containers.Store.Complete.{find_complete_deployment-partial}
use edgehog_device_runtime.Containers.Store.Updates.{Outcome, deployment_update-Outcome}

abbrev container_with : ℕ → ℕ → List ℕ → CreateContainer
container_with c i volumes = record {
  id = c;
  image_id = i;
  network_ids = [];
  volume_ids = volumes;
  device_mapping_ids = [];
  device_request_ids = [];
  file_bind_ids = [];
  env_file_ids = [];
}

-- The deployments come before their containers, and the containers before what they use. Container 12
-- waits for image 22.
abbrev all_requests : List ContainerRequest
all_requests =
    deployment_request 1 (10 ∷ 11 ∷ [])
    ∷ deployment_request 2 (11 ∷ 12 ∷ [])
    ∷ container_request (container_with 10 20 (30 ∷ [])) 1
    ∷ container_request (container_with 11 21 (31 ∷ [])) 1
    ∷ container_request (container_with 12 22 []) 2
    ∷ volume_request 30 1
    ∷ image_request 20 1
    ∷ image_request 21 1
    ∷ volume_request 31 1
    ∷ command_request 1 start_command
    ∷ []

abbrev none_refused : ContainerRequest → Store → Option HandleError
none_refused r s = none

abbrev full : Store
full = persist_all none_refused all_requests empty_store

found_complete :
    find_complete_deployment 1 full
    ≡ some (record {
      containers = 10 ∷ 11 ∷ [];
      images = 20 ∷ 21 ∷ [];
      volumes = 30 ∷ 31 ∷ [];
      networks = [];
      device_mappings = [];
      device_requests = [];
      file_binds = [];
      env_files = [];
    })
unfolding persist_all persist persist_converted type_discrete filter insert_all set_image
    create_image create_resource link_all link_resources join_waiting create_container add_members
    create_deployment update_deployment_status put_status count_id set_status status_of_command
    join_resources find_container column set_of insert_idx by_index deployment_of
    is_container_complete is_deployment_complete find_complete_deployment
found_complete = refl

-- Container 11 has index 0 in the second deployment and index 1 in the first one, and would be deleted
-- with the second one, though its image and its volume would not.
shared_container :
    find_deployment_for_delete 2 full
    ≡ some (record {
      containers = 11 ∷ [];
      images = [];
      volumes = [];
      networks = [];
      device_mappings = [];
      device_requests = [];
      file_binds = [];
      env_files = [];
    })
unfolding persist_all persist persist_converted type_discrete filter insert_all set_image
    create_image create_resource link_all link_resources join_waiting create_container add_members
    create_deployment update_deployment_status put_status count_id set_status status_of_command
    join_resources find_container column set_of insert_idx by_index except except_pairs own
    own_images own_containers find_deployment_for_delete
shared_container = refl

persist_all-IsSettled_example : IsSettled full
persist_all-IsSettled_example = persist_all-IsSettled none_refused all_requests

-- Deployment 2 is handed out without container 12.
find_complete_deployment-partial_example :
    (x : Deployment) × (find_complete_deployment 2 full ≡ some x) × (mem 12 x.containers ≡ false)
unfolding persist_all persist persist_converted type_discrete filter insert_all set_image
    create_image create_resource link_all link_resources join_waiting create_container add_members
    create_deployment update_deployment_status put_status count_id set_status status_of_command
    find_container is_container_complete
find_complete_deployment-partial_example =
    find_complete_deployment-partial 2 12 full refl refl refl refl

deployment_update-Outcome_example :
    Outcome true
      (record { from = 1; to = 2 })
      full
      (deployment_update (record { from = 1; to = 2 }) full)
unfolding persist_all persist persist_converted type_discrete filter insert_all set_image
    create_image create_resource link_all link_resources join_waiting create_container add_members
    create_deployment update_deployment_status put_status count_id set_status status_of_command
deployment_update-Outcome_example =
    deployment_update-Outcome (record { from = 1; to = 2 }) full (omega arith) (omega arith)

abbrev second_deployment : Deployment
second_deployment = record {
  containers = 11 ∷ [];
  images = [];
  volumes = [];
  networks = [];
  device_mappings = [];
  device_requests = [];
  file_binds = [];
  env_files = [];
}

find_deployment_for_delete-exclusive_example :
    (mem 31 second_deployment.images ≡ exclusive 2 full (uses_image 31 full))
    × (mem 31 second_deployment.volumes ≡ exclusive 2 full (uses volume 31 full))
    × (mem 31 second_deployment.networks ≡ exclusive 2 full (uses network 31 full))
    × (mem 31 second_deployment.device_mappings ≡ exclusive 2 full (uses device_mapping 31 full))
    × (mem 31 second_deployment.device_requests ≡ exclusive 2 full (uses device_request 31 full))
    × (mem 31 second_deployment.file_binds ≡ exclusive 2 full (uses file_bind 31 full))
    × (mem 31 second_deployment.env_files ≡ exclusive 2 full (uses env_file 31 full))
find_deployment_for_delete-exclusive_example =
    find_deployment_for_delete-exclusive 2 full second_deployment 31 shared_container
