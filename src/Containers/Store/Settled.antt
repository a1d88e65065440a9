-- ===== src/Containers/Store/Settled.antt =====
-- Whatever the order of the requests, nothing that is stored is held to be missing.
mod Rows
pub mod Invariant
mod Containers
use edgehog_device_runtime.Base.{
  ℕ, ◌==◌, ◌≡◌, refl, Bool, true, false, Bool-cases, if◌then◌else◌, Option, none, some, List, [],
  ◌∷◌, Result, ok, err, inl, inr,
}
use edgehog_device_runtime.Containers.Resource.{
  image, volume, network, device_mapping, device_request, file_bind, env_file, DeploymentStatus,
  received, stopped, started, deleted, DeploymentUpdate,
}
use edgehog_device_runtime.Containers.Store.{type_discrete, Store}
use edgehog_device_runtime.Containers.Store.Queries.{
  HandleError, count_id, set_status, put_status, status_of, then_do, commit, stop_from, update_both,
  update_deployment_status, deployment_update,
}
use edgehog_device_runtime.Containers.Store.Requests.{
  ContainerRequest, image_request, volume_request, network_request, device_mapping_request,
  device_request_request, file_bind_request, env_file_request, container_request,
  deployment_request, command_request, update_request, status_of_command, persist_converted,
  refused_or, persist, persist_all,
}
use edgehog_device_runtime.Containers.Store.Settled.Invariant.{
  IsSettled, create_image-IsSettled, create_resource-IsSettled,
}
use edgehog_device_runtime.Containers.Store.Settled.Containers.{
  create_container-IsSettled, create_deployment-IsSettled, with_deployments-IsSettled,
}

abbrev pub empty_store : Store
empty_store = record {
  resources = [];
  containers = [];
  missing_images = [];
  links = [];
  missing_links = [];
  deployments = [];
  deployment_containers = [];
  missing_containers = [];
}

empty-IsSettled : IsSettled empty_store
empty-IsSettled = record {
  resources = record { linked = tt; lacking = tt; images = tt; imaged = tt };
  members = record { joined = tt; waiting = tt };
}

-- what a transaction leaves, if it succeeds
abbrev Leaves : Result HandleError Store → Type 0
Leaves (ok s) = IsSettled s
Leaves (err e) = Unit

commit-IsSettled :
    (s : Store) (r : Result HandleError Store) → IsSettled s → Leaves r → IsSettled (commit s r).1
commit-IsSettled s (ok s') h k = k
commit-IsSettled s (err e) h k = h

put_status-Leaves :
    (d : ℕ) (t : DeploymentStatus) (s : Store) → IsSettled s → Leaves (put_status d t s)
unfolding put_status
put_status-Leaves d t s h = elim (Bool-cases (count_id d s.deployments == 1)) [
  | inl e ↦ rw e (with_deployments-IsSettled (set_status d t s.deployments) s h)
  | inr e ↦ rw e tt
]

stop_from-Leaves :
    (d : ℕ) (o : Option DeploymentStatus) (s : Store) → IsSettled s → Leaves (stop_from d o s)
stop_from-Leaves d none s h = tt
stop_from-Leaves d (some started) s h = put_status-Leaves d stopped s h
stop_from-Leaves d (some received) s h = h
stop_from-Leaves d (some stopped) s h = h
stop_from-Leaves d (some deleted) s h = h

then_do-Leaves :
    (d : ℕ) (t : DeploymentStatus) (r : Result HandleError Store)
    → Leaves r
    → Leaves (then_do r (put_status d t))
then_do-Leaves d t (ok s) h = put_status-Leaves d t s h
then_do-Leaves d t (err e) h = tt

persist_converted-IsSettled :
    (r : ContainerRequest) (s : Store) → IsSettled s → IsSettled (persist_converted r s).1
unfolding persist_converted type_discrete update_deployment_status deployment_update
persist_converted-IsSettled (image_request i d) s h = create_image-IsSettled i s h
persist_converted-IsSettled (volume_request r d) s h = create_resource-IsSettled volume r s refl h
persist_converted-IsSettled (network_request r d) s h = create_resource-IsSettled network r s refl h
persist_converted-IsSettled (device_mapping_request r d) s h =
    create_resource-IsSettled device_mapping r s refl h
persist_converted-IsSettled (device_request_request r d) s h =
    create_resource-IsSettled device_request r s refl h
persist_converted-IsSettled (file_bind_request r d) s h =
    create_resource-IsSettled file_bind r s refl h
persist_converted-IsSettled (env_file_request r d) s h =
    create_resource-IsSettled env_file r s refl h
persist_converted-IsSettled (container_request c d) s h = create_container-IsSettled c s h
persist_converted-IsSettled (deployment_request d cs) s h = create_deployment-IsSettled d cs s h
persist_converted-IsSettled (command_request d c) s h =
    commit-IsSettled s _ h (put_status-Leaves d (status_of_command c) s h)
persist_converted-IsSettled (update_request u) s h =
    commit-IsSettled s _ h
      (then_do-Leaves u.to started _ (stop_from-Leaves u.from (status_of u.from s.deployments) s h))

refused_or-IsSettled :
    (o : Option HandleError) (r : ContainerRequest) (s : Store)
    → IsSettled s
    → IsSettled (refused_or o r s).1
refused_or-IsSettled none r s h = persist_converted-IsSettled r s h
refused_or-IsSettled (some e) r s h = h

module _ (refusal : ContainerRequest → Store → Option HandleError) where
  persist_all-from :
      (rs : List ContainerRequest) (s : Store) → IsSettled s → IsSettled (persist_all refusal rs s)
  unfolding persist_all persist
  persist_all-from [] s h = h
  persist_all-from (r ∷ rs) s h = persist_all-from rs _ (refused_or-IsSettled (refusal r s) r s h)

  -- After any requests, in any order, some of which may be refused, an empty store has come to one in
  -- which every container is linked to resources that are stored and waits for others only, and every
  -- deployment has containers that are stored and waits for others only.
  pub persist_all-IsSettled :
      (rs : List ContainerRequest) → IsSettled (persist_all refusal rs empty_store)
  persist_all-IsSettled rs = persist_all-from rs empty_store empty-IsSettled
