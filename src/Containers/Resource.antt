-- ===== src/Containers/Resource.antt =====
-- The resources of a deployment: resource/mod.rs of edgehog-device-runtime-containers, with the calls
-- that its traits `Resource` and `Create` leave to each kind of resource, and the store and event
-- calls of service/mod.rs. An `Env` answers each call from the history of the calls so far.
use edgehog_device_runtime.Base.{
  ℕ, String, Option, none, some, List, [], ◌∷◌, Result, ok, Exec, pure, raise, ◌>>=◌, ◌>>◌,
}

pub data ResourceType : Type 0 where
  image volume network device_mapping device_request file_bind env_file container deployment :
      ResourceType

-- An error of a library, as an opaque number.
abbrev pub Cause : Type 0
Cause = ℕ

pub data ResourceError : Type 0 where
  property store docker astarte_property : Cause → ResourceError
  missing : ℕ → String → ResourceError
  invalid : ℕ → String → String → ResourceError

pub data ServiceError : Type 0 where
  from_event docker_error astarte request_error store_error : Cause → ServiceError
  resource : ResourceError → ServiceError

-- `State` of a fetched resource: not on the device, on the device, or there to be created anew.
pub data State : Type 0 where
  absent existing recreatable : State

-- A `Deployment` with its containers in the order of their index. The other fields are sets, listed
-- in the order in which they are iterated.
pub record Deployment : Type 0 where
  pub containers : List ℕ
  pub images : List ℕ
  pub volumes : List ℕ
  pub networks : List ℕ
  pub device_mappings : List ℕ
  pub device_requests : List ℕ
  pub file_binds : List ℕ
  pub env_files : List ℕ

pub data DeploymentStatus : Type 0 where
  received stopped started deleted : DeploymentStatus

-- the status of the property that is sent
pub data PropertyStatus : Type 0 where
  stopped_status started_status : PropertyStatus

pub data EventStatus : Type 0 where
  starting started_event stopping stopped_event updating deleting error : EventStatus

pub record DeploymentEvent : Type 0 where
  pub status : EventStatus
  pub message : String
  pub add_info : List String

pub data SecurityEvent : Type 0 where
  deployment_init deployment_ok deployment_fail start_init start_ok start_fail : SecurityEvent
  stop_init stop_ok stop_fail undeployment_init undeployment_ok undeployment_fail : SecurityEvent

pub record DeploymentUpdate : Type 0 where
  pub from : ℕ
  pub to : ℕ

pub data Call : Type 0 where
  fetch create_one delete_one publish unset check : ResourceType → ℕ → Call
  start_container stop_container : ℕ → Call
  send_status : ℕ → PropertyStatus → Call
  send_event : DeploymentEvent → ℕ → Call
  notify : SecurityEvent → Call
  load_to_publish : ResourceType → Call
  load_deployments_in : DeploymentStatus → Call
  find_complete_deployment find_deployment_for_delete load_deployment_containers : ℕ → Call
  load_deployment_containers_update_from : DeploymentUpdate → Call

abbrev pub History : Type 0
History = List Call

abbrev pub Answer : Type 0 → Type 0
Answer A = History → Result ServiceError A

pub record Env : Type 0 where
  pub fetch : ResourceType → ℕ → Answer (Option State)
  pub act : Answer (Unit {0})
  pub load : Answer (List ℕ)
  pub find_deployment : Answer (Option Deployment)
  pub find_containers : Answer (Option (List ℕ))
  pub uuid_text : ℕ → String
  pub error_message : ServiceError → String
  pub error_sources : ServiceError → List String

abbrev pub Run : Type 0 → Type 0
Run A = Exec Call ServiceError A

-- A call that may fail: `.await?`.
abbrev pub ask : {A : Type 0} → Call → Answer A → Run A
ask c answer h = (answer (c ∷ h), c ∷ h)

-- `match … .await`: the error as a value
abbrev pub attempt : {A : Type 0} → Run A → Run (Result ServiceError A)
attempt m h = let (r, h') = m h in (ok r, h')

-- `for id in ids { … .await?; }`
unfoldable pub each : (ℕ → Run (Unit {0})) → List ℕ → Run (Unit {0})
each f [] = pure tt
each f (id ∷ ids) = do f id; each f ids

-- `RESOURCE_NAME`, as it is spelt. The other kinds do not implement `Create`, and so are not fetched.
abbrev pub resource_name : ResourceType → String
resource_name image = "image"
resource_name volume = "voulume"
resource_name network = "network"
resource_name container = "container"
resource_name _ = "resource"

module _ (env : Env) where
  -- `act` answers the calls that return nothing.
  abbrev pub do_call : Call → Run (Unit {0})
  do_call c = ask c env.act

  -- a resource that the store does not have is an error
  unfoldable pub known : ResourceType → ℕ → Option State → Run State
  known rt id none = raise (resource (missing id (resource_name rt)))
  known rt id (some state) = pure state

  unfoldable pub fetch_known : ResourceType → ℕ → Run State
  fetch_known rt id = do found ← ask (fetch rt id) (env.fetch rt id); known rt id found

  unfoldable pub refresh : ResourceType → ℕ → Run (Unit {0})
  refresh rt id = do ask (fetch rt id) (env.fetch rt id); pure tt

  unfoldable pub create_absent : ResourceType → ℕ → State → Run (Unit {0})
  create_absent rt id recreatable = do_call (create_one rt id)
  create_absent rt id absent = do_call (create_one rt id)
  create_absent rt id existing = pure tt

  unfoldable pub up : ResourceType → ℕ → Run (Unit {0})
  up rt id = do state ← fetch_known rt id; create_absent rt id state

  unfoldable pub delete_present : ResourceType → ℕ → State → Run (Unit {0})
  delete_present rt id absent = pure tt
  delete_present rt id existing = do_call (delete_one rt id)
  delete_present rt id recreatable = do_call (delete_one rt id)

  unfoldable pub down : ResourceType → ℕ → Run (Unit {0})
  down rt id = do state ← fetch_known rt id; delete_present rt id state; do_call (unset rt id)
