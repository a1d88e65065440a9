-- ===== src/Containers/Service/Paid.antt =====
-- What a command of service/mod.rs does on the device, after it has looked a resource up.
use mathlib.Core.List.{reverse}
use edgehog_device_runtime.Base.{
  ℕ, continue, Option, none, some, List, [], ◌∷◌, Result, ok, err, ◌>>=◌, ◌>>◌,
}
use edgehog_device_runtime.Containers.Resource.{
  started_status, Call, Deployment, Env, History, ResourceType, Run, ServiceError, State, absent,
  existing, recreatable, image, volume, network, device_mapping, device_request, file_bind,
  env_file, container, deployment, fetch, create_one, delete_one, unset, check, notify, send_status,
  start_container, send_event, starting, find_complete_deployment, deployment_init, start_init,
  start_ok, do_call, known, fetch_known, create_absent, up, delete_present, down, each,
}
use edgehog_device_runtime.Containers.Service.{
  start_one, start_deployment, delete_deployment, log_security, start_reply, start_found, start,
  with_message,
}

-- the call that brings a resource up that is found in this state, and that which takes it down
abbrev pub Duty : Type 0
Duty = ResourceType → ℕ → State → Option Call

abbrev pub to_create : Duty
to_create rt id existing = none
to_create rt id _ = some (create_one rt id)

abbrev pub to_delete : Duty
to_delete rt id absent = none
to_delete rt id _ = some (delete_one rt id)

abbrev pub owes : Duty → ResourceType → ℕ → Result ServiceError (Option State) → Option Call
owes duty rt id (ok (some s)) = duty rt id s
owes duty rt id (ok none) = none
owes duty rt id (err e) = none

-- the call that has to come next after this one
abbrev pub owed : Env → Duty → Call → History → Option Call
owed env duty (fetch rt id) h = owes duty rt id (env.fetch rt id h)
owed env duty _ h = none

-- The calls since a history, in which a call that is owed comes next; and what the latest of them owes.
pub data Pays (env : Env) (duty : Duty) (since : History) : Option Call → History → Type 0 where
  begin : Pays env duty since none since
  owing :
      {h : History} (c : Call)
      → Pays env duty since none h
      → Pays env duty since (owed env duty c (c ∷ h)) (c ∷ h)
  paying :
      {h : History} {c : Call} → Pays env duty since (some c) h → Pays env duty since none (c ∷ h)

module _ (env : Env) (duty : Duty) (since : History) where
  abbrev Keeps : {A : Type 0} → Run A → Type 0
  Keeps m = (h : History) → Pays env duty since none h → Pays env duty since none (m h).1

  continue-Keeps :
      {A B : Type 0} (r : Result ServiceError A) (f : A → Run B) (h : History)
      → Pays env duty since none h
      → ((a : A) → Keeps (f a))
      → Pays env duty since none (continue r f h).1
  continue-Keeps (ok a) f h p all = all a h p
  continue-Keeps (err e) f h p all = p

  bind-Keeps :
      {A B : Type 0} (m : Run A) (f : A → Run B)
      → Keeps m
      → ((a : A) → Keeps (f a))
      → Keeps (m >>= f)
  bind-Keeps m f k all h p = let (r, h') = m h in continue-Keeps r f h' (k h p) all

  each-Keeps :
      (f : ℕ → Run (Unit {0})) (ids : List ℕ) → ((id : ℕ) → Keeps (f id)) → Keeps (each f ids)
  unfolding each
  each-Keeps f [] all = λ h p. p
  each-Keeps f (id ∷ ids) all =
      bind-Keeps (f id) (λ _. each f ids) (all id) (λ _. each-Keeps f ids all)

  -- parts of the code that run one after the other
  abbrev Kept : Type 0
  Kept = (run : Run (Unit {0})) × Keeps run

  abbrev kept_run : Kept → List Kept → Run (Unit {0})
  kept_run s [] = s.0
  kept_run s (s' ∷ rest) = s.0 >> kept_run s' rest

  kept_run-Keeps : (s : Kept) (rest : List Kept) → Keeps (kept_run s rest)
  kept_run-Keeps s [] = s.1
  kept_run-Keeps s (s' ∷ rest) =
      bind-Keeps s.0 (λ _. kept_run s' rest) s.1 (λ _. kept_run-Keeps s' rest)

  abbrev keep_each : (f : ℕ → Run (Unit {0})) → ((id : ℕ) → Keeps (f id)) → List ℕ → Kept
  keep_each f k ids = (each f ids, each-Keeps f ids k)

module _ (env : Env) (since : History) where
  up_found :
      (rt : ResourceType) (id : ℕ) (o : Result ServiceError (Option State)) (h : History)
      → Pays env to_create since (owes to_create rt id o) h
      → Pays env to_create since none
          (continue
            (continue o (known env rt id) h).0
            (create_absent env rt id)
            (continue o (known env rt id) h).1).1
  unfolding known create_absent
  up_found rt id (err e) h p = p
  up_found rt id (ok none) h p = p
  up_found rt id (ok (some absent)) h p = paying p
  up_found rt id (ok (some recreatable)) h p = paying p
  up_found rt id (ok (some existing)) h p = p

  up-Keeps : (rt : ResourceType) (id : ℕ) → Keeps env to_create since (up env rt id)
  unfolding up fetch_known
  up-Keeps rt id h p =
      up_found rt id (env.fetch rt id (fetch rt id ∷ h)) (fetch rt id ∷ h) (owing (fetch rt id) p)

  unset-Keeps : (rt : ResourceType) (id : ℕ) → Keeps env to_delete since (do_call env (unset rt id))
  unset-Keeps rt id h p = owing (unset rt id) p

  down_found :
      (rt : ResourceType) (id : ℕ) (o : Result ServiceError (Option State)) (h : History)
      → Pays env to_delete since (owes to_delete rt id o) h
      → Pays env to_delete since none
          (continue
            (continue o (known env rt id) h).0
            (λ s. delete_present env rt id s >> do_call env (unset rt id))
            (continue o (known env rt id) h).1).1
  unfolding known delete_present
  down_found rt id (err e) h p = p
  down_found rt id (ok none) h p = p
  down_found rt id (ok (some absent)) h p = unset-Keeps rt id h p
  down_found rt id (ok (some recreatable)) h p =
      continue-Keeps env to_delete since (env.act (delete_one rt id ∷ h))
        (λ _. do_call env (unset rt id)) (delete_one rt id ∷ h) (paying p) (λ _. unset-Keeps rt id)
  down_found rt id (ok (some existing)) h p =
      continue-Keeps env to_delete since (env.act (delete_one rt id ∷ h))
        (λ _. do_call env (unset rt id)) (delete_one rt id ∷ h) (paying p) (λ _. unset-Keeps rt id)

  down-Keeps : (rt : ResourceType) (id : ℕ) → Keeps env to_delete since (down env rt id)
  unfolding down fetch_known
  down-Keeps rt id h p =
      down_found rt id (env.fetch rt id (fetch rt id ∷ h)) (fetch rt id ∷ h) (owing (fetch rt id) p)

  start_one-Keeps : (id : ℕ) → Keeps env to_create since (start_one env id)
  unfolding start_one
  start_one-Keeps id =
      bind-Keeps env to_create since (up env container id) _ (up-Keeps container id)
        (λ _ h p. owing (start_container id) p)

  abbrev ups : ResourceType → List ℕ → Kept env to_create since
  ups rt ids = keep_each env to_create since (up env rt) (up-Keeps rt) ids

  abbrev checks : ResourceType → List ℕ → Kept env to_create since
  checks rt ids =
      keep_each env to_create since (λ i. do_call env (check rt i)) (λ i h p. owing (check rt i) p)
        ids

  pub start_deployment-Pays :
      (id : ℕ) (d : Deployment) → Keeps env to_create since (start_deployment env id d)
  unfolding start_deployment
  start_deployment-Pays id d =
      kept_run-Keeps env to_create since
        (log_security start_init, λ h p. owing (notify start_init) p)
        (ups image d.images
          ∷ ups volume d.volumes
          ∷ ups network d.networks
          ∷ checks file_bind d.file_binds
          ∷ checks env_file d.env_files
          ∷ keep_each env to_create since (start_one env) start_one-Keeps d.containers
          ∷ (
            do_call env (send_status id started_status),
            λ h p. owing (send_status id started_status) p,
          )
          ∷ (log_security start_ok, λ h p. owing (notify start_ok) p)
          ∷ [])

  start_reply-Keeps :
      (id : ℕ) (r : Result ServiceError (Unit {0}))
      → Keeps env to_create since (start_reply env id r)
  unfolding start_reply
  start_reply-Keeps id (ok _) h p = owing _ (owing _ p)
  start_reply-Keeps id (err e) h p = owing _ (owing _ (owing _ p))

  start_found-Keeps :
      (id : ℕ) (r : Result ServiceError (Option Deployment))
      → Keeps env to_create since (start_found env id r)
  unfolding start_found
  start_found-Keeps id (err e) h p = owing _ (owing _ p)
  start_found-Keeps id (ok none) h p = owing _ (owing _ p)
  start_found-Keeps id (ok (some d)) h p =
      let h₁ = send_event (with_message starting "") id ∷ h in
      let (r, h₂) = start_deployment env id d h₁ in
      start_reply-Keeps id r h₂ (start_deployment-Pays id d h₁ (owing _ p))

  pub start-Pays : (id : ℕ) → Keeps env to_create since (start env id)
  unfolding start
  start-Pays id h p =
      let h₁ = find_complete_deployment id ∷ notify deployment_init ∷ h in
      start_found-Keeps id (env.find_deployment h₁) h₁ (owing _ (owing _ p))

  abbrev downs : ResourceType → List ℕ → Kept env to_delete since
  downs rt ids = keep_each env to_delete since (down env rt) (down-Keeps rt) ids

  abbrev unsets : ResourceType → List ℕ → Kept env to_delete since
  unsets rt ids = keep_each env to_delete since (λ i. do_call env (unset rt i)) (unset-Keeps rt) ids

  pub delete_deployment-Pays :
      (id : ℕ) (d : Deployment) → Keeps env to_delete since (delete_deployment env id d)
  unfolding delete_deployment
  delete_deployment-Pays id d =
      kept_run-Keeps env to_delete since (downs container (reverse d.containers)) (
        downs volume d.volumes
        ∷ downs network d.networks
        ∷ downs image d.images
        ∷ unsets device_mapping d.device_mappings
        ∷ unsets device_request d.device_requests
        ∷ unsets file_bind d.file_binds
        ∷ unsets env_file d.env_files
        ∷ (do_call env (unset deployment id), unset-Keeps deployment id)
        ∷ [])
