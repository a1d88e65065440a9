-- ===== src/Containers/Service/Order.antt =====
-- The order in which a deployment is started and deleted.
use mathlib.Core.List.{reverse, flat_map}
use edgehog_device_runtime.Base.{
  ℕ, ◌≡◌, refl, Option, none, some, List, [], ◌∷◌, Emits, Emits-pure, Emits-bind, Progress, keep,
  ◌>>◌, seen,
}
use edgehog_device_runtime.Containers.Resource.{
  PropertyStatus, started_status, Call, Deployment, Env, History, ResourceType, SecurityEvent,
  ServiceError, State, absent, ask, check, container, create_one, delete_one, deployment,
  device_mapping, device_request, do_call, down, each, env_file, existing, fetch, fetch_known,
  known, create_absent, delete_present, file_bind, image, network, notify, recreatable, send_status,
  start_container, start_init, start_ok, unset, up, volume,
}
use edgehog_device_runtime.Containers.Plan.{
  joined, Stage, run_of-Emits, Emits-ask, Emits-call, Emits-each,
}
use edgehog_device_runtime.Containers.Service.Paid.{to_delete, Pays, begin, delete_deployment-Pays}
use edgehog_device_runtime.Containers.Service.{
  start_one, start_deployment, delete_deployment, log_security,
}

-- A step that is seen: a resource is looked up, checked, unset, or its container started.
pub data Step : Type 0 where
  fetched checked removed : ResourceType → ℕ → Step
  container_started : ℕ → Step
  status_sent : ℕ → PropertyStatus → Step

abbrev pub step_of : Call → Option Step
step_of (fetch rt id) = some (fetched rt id)
step_of (check rt id) = some (checked rt id)
step_of (unset rt id) = some (removed rt id)
step_of (start_container id) = some (container_started id)
step_of (send_status id s) = some (status_sent id s)
step_of _ = none

abbrev fetched_all : ResourceType → List ℕ → List Step
fetched_all rt ids = flat_map (λ id. fetched rt id ∷ []) ids

abbrev checked_all : ResourceType → List ℕ → List Step
checked_all rt ids = flat_map (λ id. checked rt id ∷ []) ids

abbrev started_step : ℕ → List Step
started_step i = fetched container i ∷ container_started i ∷ []

abbrev started_all : List ℕ → List Step
started_all ids = flat_map started_step ids

-- The resources are looked up and checked before any container, and a container is started before
-- the next one is looked at. The status comes last.
unfoldable pub start_plan : ℕ → Deployment → List Step
start_plan id d = joined (
    fetched_all image d.images
    ∷ fetched_all volume d.volumes
    ∷ fetched_all network d.networks
    ∷ checked_all file_bind d.file_binds
    ∷ checked_all env_file d.env_files
    ∷ started_all d.containers
    ∷ (status_sent id started_status ∷ [])
    ∷ [])

abbrev removed_all : ResourceType → List ℕ → List Step
removed_all rt ids = flat_map (λ id. removed rt id ∷ []) ids

abbrev removed_step : ResourceType → ℕ → List Step
removed_step rt id = fetched rt id ∷ removed rt id ∷ []

-- The containers go first, in the reverse of the order they were started in, then what they use.
-- The deployment itself goes last.
unfoldable pub delete_plan : ℕ → Deployment → List Step
delete_plan id d = joined (
    flat_map (removed_step container) (reverse d.containers)
    ∷ flat_map (removed_step volume) d.volumes
    ∷ flat_map (removed_step network) d.networks
    ∷ flat_map (removed_step image) d.images
    ∷ removed_all device_mapping d.device_mappings
    ∷ removed_all device_request d.device_requests
    ∷ removed_all file_bind d.file_binds
    ∷ removed_all env_file d.env_files
    ∷ (removed deployment id ∷ [])
    ∷ [])

module _ (env : Env) where
  do_call-Emits :
      (c : Call) (o : Option Step) → step_of c ≡ o → Emits step_of (keep o []) (do_call env c)
  do_call-Emits c o e = Emits-ask step_of c env.act o e

  known-Emits :
      (rt : ResourceType) (id : ℕ) (o : Option State) → Emits step_of [] (known env rt id o)
  unfolding known
  known-Emits rt id none h = ([], [], refl, refl)
  known-Emits rt id (some state) h = refl

  fetch_known-Emits :
      (rt : ResourceType) (id : ℕ) → Emits step_of (fetched rt id ∷ []) (fetch_known env rt id)
  unfolding fetch_known
  fetch_known-Emits rt id =
      Emits-bind step_of (fetched rt id ∷ []) [] (ask (fetch rt id) (env.fetch rt id)) _
        (Emits-ask step_of (fetch rt id) (env.fetch rt id) (some (fetched rt id)) refl)
        (known-Emits rt id)

  create_absent-Emits :
      (rt : ResourceType) (id : ℕ) (s : State) → Emits step_of [] (create_absent env rt id s)
  unfolding create_absent
  create_absent-Emits rt id absent = do_call-Emits (create_one rt id) none refl
  create_absent-Emits rt id recreatable = do_call-Emits (create_one rt id) none refl
  create_absent-Emits rt id existing = Emits-pure step_of ServiceError tt

  delete_present-Emits :
      (rt : ResourceType) (id : ℕ) (s : State) → Emits step_of [] (delete_present env rt id s)
  unfolding delete_present
  delete_present-Emits rt id absent = Emits-pure step_of ServiceError tt
  delete_present-Emits rt id recreatable = do_call-Emits (delete_one rt id) none refl
  delete_present-Emits rt id existing = do_call-Emits (delete_one rt id) none refl

  up-Emits : (rt : ResourceType) (id : ℕ) → Emits step_of (fetched rt id ∷ []) (up env rt id)
  unfolding up
  up-Emits rt id =
      Emits-bind step_of (fetched rt id ∷ []) [] (fetch_known env rt id) (create_absent env rt id)
        (fetch_known-Emits rt id) (create_absent-Emits rt id)

  down-Emits :
      (rt : ResourceType) (id : ℕ)
      → Emits step_of (fetched rt id ∷ removed rt id ∷ []) (down env rt id)
  unfolding down
  down-Emits rt id =
      Emits-bind step_of (fetched rt id ∷ []) (removed rt id ∷ []) (fetch_known env rt id)
        (λ s. delete_present env rt id s >> do_call env (unset rt id)) (fetch_known-Emits rt id)
        (λ s.
          Emits-bind step_of [] (removed rt id ∷ []) (delete_present env rt id s) _
            (delete_present-Emits rt id s)
            (λ _. do_call-Emits (unset rt id) (some (removed rt id)) refl))

  start_one-Emits :
      (id : ℕ) → Emits step_of (fetched container id ∷ container_started id ∷ []) (start_one env id)
  unfolding start_one
  start_one-Emits id =
      Emits-bind step_of (fetched container id ∷ []) (container_started id ∷ [])
        (up env container id) _ (up-Emits container id)
        (λ _. do_call-Emits (start_container id) (some (container_started id)) refl)

  abbrev prepare : (rt : ResourceType) → List ℕ → Stage step_of
  prepare rt ids = (
    fetched_all rt ids,
    each (up env rt) ids,
    Emits-each step_of (up env rt) (λ id. fetched rt id ∷ []) ids (up-Emits rt),
  )

  abbrev checks : (rt : ResourceType) → List ℕ → Stage step_of
  checks rt ids = (
    checked_all rt ids,
    each (λ i. do_call env (check rt i)) ids,
    Emits-each step_of (λ i. do_call env (check rt i)) (λ id. checked rt id ∷ []) ids
        (λ id. do_call-Emits (check rt id) (some (checked rt id)) refl),
  )

  abbrev log : SecurityEvent → Stage step_of
  log e = ([], log_security e, Emits-call step_of (notify e) tt none refl)

  abbrev status : ℕ → PropertyStatus → Stage step_of
  status id s = (
    status_sent id s ∷ [],
    do_call env (send_status id s),
    do_call-Emits (send_status id s) (some (status_sent id s)) refl,
  )

  abbrev starts : List ℕ → Stage step_of
  starts ids = (
    started_all ids,
    each (start_one env) ids,
    Emits-each step_of (start_one env) started_step ids start_one-Emits,
  )

  start_deployment-Emits :
      (id : ℕ) (d : Deployment) → Emits step_of (start_plan id d) (start_deployment env id d)
  unfolding start_deployment start_plan
  start_deployment-Emits id d = run_of-Emits step_of (log start_init) (
      prepare image d.images
      ∷ prepare volume d.volumes
      ∷ prepare network d.networks
      ∷ checks file_bind d.file_binds
      ∷ checks env_file d.env_files
      ∷ starts d.containers
      ∷ status id started_status
      ∷ log start_ok
      ∷ [])

  abbrev downs : (rt : ResourceType) → List ℕ → Stage step_of
  downs rt ids = (
    flat_map (removed_step rt) ids,
    each (down env rt) ids,
    Emits-each step_of (down env rt) (removed_step rt) ids (down-Emits rt),
  )

  abbrev unsets : (rt : ResourceType) → List ℕ → Stage step_of
  unsets rt ids = (
    removed_all rt ids,
    each (λ i. do_call env (unset rt i)) ids,
    Emits-each step_of (λ i. do_call env (unset rt i)) (λ id. removed rt id ∷ []) ids
        (λ id. do_call-Emits (unset rt id) (some (removed rt id)) refl),
  )

  delete_deployment-Emits :
      (id : ℕ) (d : Deployment) → Emits step_of (delete_plan id d) (delete_deployment env id d)
  unfolding delete_deployment delete_plan
  delete_deployment-Emits id d = run_of-Emits step_of (downs container (reverse d.containers)) (
      downs volume d.volumes
      ∷ downs network d.networks
      ∷ downs image d.images
      ∷ unsets device_mapping d.device_mappings
      ∷ unsets device_request d.device_requests
      ∷ unsets file_bind d.file_binds
      ∷ unsets env_file d.env_files
      ∷ (
        removed deployment id ∷ [],
        do_call env (unset deployment id),
        do_call-Emits (unset deployment id) (some (removed deployment id)) refl,
      )
      ∷ [])

  -- Starting a deployment takes the steps of its plan in order: every image, volume and network is
  -- looked up and every bound file checked before the first container, the containers start in the
  -- order of their index, each once, and the status is sent last. Without an error all steps are
  -- taken, with one the steps up to it.
  pub start_deployment-Progress :
      (id : ℕ) (d : Deployment) (h : History)
      → Progress
          (start_plan id d)
          (start_deployment env id d h).0
          (seen step_of h)
          (seen step_of (start_deployment env id d h).1)
  start_deployment-Progress = start_deployment-Emits

  -- Deleting a deployment takes the steps of its plan in order: the containers are looked up and unset
  -- first, in the reverse of the order they start in, then volumes, networks and images, and the
  -- deployment is unset last. Without an error all steps are taken, with one the steps up to it. A
  -- resource that is found on the device is deleted there at once, by the call after the one that found
  -- it.
  pub delete_deployment-Progress :
      (id : ℕ) (d : Deployment) (h : History)
      → Progress
          (delete_plan id d)
          (delete_deployment env id d h).0
          (seen step_of h)
          (seen step_of (delete_deployment env id d h).1)
        × Pays env to_delete h none (delete_deployment env id d h).1
  delete_deployment-Progress id d h =
      (delete_deployment-Emits id d h, delete_deployment-Pays env h id d h begin)
