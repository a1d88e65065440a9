-- ===== src/Containers/Tests.antt =====
-- The theorems on the containers service at concrete inputs, and runs of the model.

use edgehog_device_runtime.Base.{
  ◌==◌, ◌≡◌, refl, true, false, none, some, [], ◌∷◌, Result, ok, err, Progress, seen,
}
use edgehog_device_runtime.Containers.Resource.{
  deployment_init, load_deployment_containers_update_from, notify, fetch_known, known,
  create_absent, started_status, Deployment, DeploymentUpdate, Env, History, ServiceError,
  docker_error, absent, container, create_one, deleting, each, error, file_bind, image, network,
  started_event, starting, stopped_event, stopping, up,
}
use edgehog_device_runtime.Containers.Plan.{}
use edgehog_device_runtime.Containers.Service.{
  start_one, start_deployment, delete_deployment, start_reply, start_found, start, stop, delete,
  update,
}
use edgehog_device_runtime.Containers.Service.Quiet.{told, begun, succeeded, failed}
use edgehog_device_runtime.Containers.Service.Answers.{
  told_by, Ends, failure, start-Ends, stop-Ends, delete-Ends,
}
use edgehog_device_runtime.Containers.Service.Order.{
  delete_plan, fetched, checked, container_started, status_sent, delete_deployment-Progress,
  step_of, start_plan, start_deployment-Progress,
}
use edgehog_device_runtime.Containers.Service.Paid.{Pays, to_create, to_delete}
use edgehog_device_runtime.Containers.Service.Updates.{told_of_update, update-told}
use edgehog_device_runtime.Containers.Service.Started.{RunsPlan, start-done}

abbrev two : Deployment
two = record {
  containers = 10 ∷ 11 ∷ [];
  images = 20 ∷ [];
  volumes = [];
  networks = 30 ∷ [];
  device_mappings = 40 ∷ [];
  device_requests = [];
  file_binds = 50 ∷ [];
  env_files = [];
}

-- Every resource is absent. The device and the store answer without an error.
abbrev working : Env
working = record {
  fetch = λ rt id h. ok (some absent);
  act = λ h. ok tt;
  load = λ h. ok (1 ∷ []);
  find_deployment = λ h. ok (some two);
  find_containers = λ h. ok (some (10 ∷ 11 ∷ []));
  uuid_text = λ n. "id";
  error_message = λ e. "error";
  error_sources = λ e. [];
}

-- The second container is not created.
abbrev refuses : History → Result ServiceError (Unit {0})
refuses (create_one container id ∷ _) = elim (id == 11) [
  | true ↦ err (docker_error 5)
  | false ↦ ok tt
]
refuses _ = ok tt

abbrev broken : Env
broken = record {
  fetch = λ rt id h. ok (some absent);
  act = refuses;
  load = λ h. ok (1 ∷ []);
  find_deployment = λ h. ok (some two);
  find_containers = λ h. ok (some (10 ∷ 11 ∷ []));
  uuid_text = λ n. "id";
  error_message = λ e. "error";
  error_sources = λ e. [];
}

start_runs :
    seen step_of (start_deployment working 1 two []).1
    ≡ status_sent 1 started_status
      ∷ container_started 11
      ∷ fetched container 11
      ∷ container_started 10
      ∷ fetched container 10
      ∷ checked file_bind 50
      ∷ fetched network 30
      ∷ fetched image 20
      ∷ []
unfolding start_deployment each up fetch_known known create_absent start_one
start_runs = refl

start_breaks :
    seen step_of (start_deployment broken 1 two []).1
    ≡ fetched container 11
      ∷ container_started 10
      ∷ fetched container 10
      ∷ checked file_bind 50
      ∷ fetched network 30
      ∷ fetched image 20
      ∷ []
unfolding start_deployment each up fetch_known known create_absent start_one
start_breaks = refl

start_tells : told_by (start broken 1) [] ≡ told error 1 ∷ failed ∷ told starting 1 ∷ begun ∷ []
unfolding start start_found start_reply start_deployment each up fetch_known known create_absent
    start_one
start_tells = refl

start_deployment-Progress_run :
    Progress
      (start_plan 1 two)
      (start_deployment broken 1 two []).0
      []
      (seen step_of (start_deployment broken 1 two []).1)
start_deployment-Progress_run = start_deployment-Progress broken 1 two []

delete_deployment-Progress_example :
    Progress
      (delete_plan 1 two)
      (delete_deployment working 1 two []).0
      []
      (seen step_of (delete_deployment working 1 two []).1)
    × Pays working to_delete [] none (delete_deployment working 1 two []).1
delete_deployment-Progress_example = delete_deployment-Progress working 1 two []

start-Ends_run :
    Ends
      (failure 1)
      (told starting 1 ∷ [])
      (told started_event 1 ∷ succeeded ∷ [])
      (begun ∷ [])
      (told_by (start broken 1) [])
start-Ends_run = start-Ends broken 1 []

stop-Ends_run :
    Ends
      (told error 1 ∷ [])
      (told stopping 1 ∷ [])
      (told stopped_event 1 ∷ [])
      []
      (told_by (stop working 1) [])
stop-Ends_run = stop-Ends working 1 []

delete-Ends_run :
    Ends
      (failure 1)
      (told deleting 1 ∷ [])
      (succeeded ∷ [])
      (begun ∷ [])
      (told_by (delete working 1) [])
delete-Ends_run = delete-Ends working 1 []

abbrev one_to_two : DeploymentUpdate
one_to_two = record { from = 1; to = 2 }

update-told_example :
    let h₁ = load_deployment_containers_update_from one_to_two ∷ notify deployment_init ∷ [] in
    told_by (update broken one_to_two) []
    ≡ told_of_update broken one_to_two (broken.find_containers h₁) h₁
update-told_example = update-told broken one_to_two []

start-done_example :
    RunsPlan 1 (ok (some two)) [] (seen step_of (start working 1 []).1)
    × Pays working to_create [] none (start working 1 []).1
unfolding start start_found start_reply start_deployment each up fetch_known known create_absent
    start_one
start-done_example = start-done working 1 [] (succeeded ∷ told starting 1 ∷ begun ∷ []) refl
