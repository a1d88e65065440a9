-- ===== src/Containers/Deployments.antt =====
-- The work on a deployment: the helpers of service/mod.rs of edgehog-device-runtime-containers that
-- the commands run.
use mathlib.Core.List.{reverse}
use edgehog_device_runtime.Base.{ℕ, List, Result, ok, err, pure, raise, call, ◌>>=◌, ◌>>◌}
use edgehog_device_runtime.Containers.Resource.{
  stopped_status, started_status, image, volume, network, device_mapping, device_request, file_bind,
  env_file, container, deployment, ServiceError, State, absent, existing, recreatable, Deployment,
  SecurityEvent, start_init, start_ok, start_fail, stop_init, stop_ok, DeploymentUpdate, Call,
  unset, check, start_container, stop_container, send_status, notify, Env, Run, attempt, each,
  do_call, fetch_known, up, down,
}

abbrev pub log_security : SecurityEvent → Run (Unit {0})
log_security e = call (notify e) (λ _. tt)

module _ (env : Env) where
  unfoldable pub start_one : ℕ → Run (Unit {0})
  start_one id = do up env container id; do_call env (start_container id)

  unfoldable pub start_deployment : ℕ → Deployment → Run (Unit {0})
  start_deployment id d = do
    log_security start_init
    each (up env image) d.images
    each (up env volume) d.volumes
    each (up env network) d.networks
    each (λ i. do_call env (check file_bind i)) d.file_binds
    each (λ i. do_call env (check env_file i)) d.env_files
    each start_one d.containers
    do_call env (send_status id started_status)
    log_security start_ok

  -- A container that is missing is passed over.
  unfoldable pub if_present : Call → State → Run (Unit {0})
  if_present c absent = pure tt
  if_present c recreatable = do_call env c
  if_present c existing = do_call env c

  unfoldable pub stop_one : ℕ → Run (Unit {0})
  stop_one id = do state ← fetch_known env container id; if_present (stop_container id) state

  unfoldable pub stop_deployment : ℕ → List ℕ → Run (Unit {0})
  stop_deployment id containers = do
    log_security stop_init
    each stop_one containers
    do_call env (send_status id stopped_status)
    log_security stop_ok

  unfoldable pub delete_deployment : ℕ → Deployment → Run (Unit {0})
  delete_deployment id d = do
    each (down env container) (reverse d.containers)
    each (down env volume) d.volumes
    each (down env network) d.networks
    each (down env image) d.images
    each (λ i. do_call env (unset device_mapping i)) d.device_mappings
    each (λ i. do_call env (unset device_request i)) d.device_requests
    each (λ i. do_call env (unset file_bind i)) d.file_binds
    each (λ i. do_call env (unset env_file i)) d.env_files
    do_call env (unset deployment id)

  unfoldable pub restart_one : ℕ → Run (Unit {0})
  restart_one id = do state ← fetch_known env container id; if_present (start_container id) state

  unfoldable pub restart_failed : ℕ → List ℕ → Run (Unit {0})
  restart_failed id containers = do
    each restart_one containers
    do_call env (send_status id started_status)

  -- `inspect_err`: both failures are logged as a failed start.
  unfoldable pub log_failure : Result ServiceError (Unit {0}) → Run (Unit {0})
  log_failure (ok _) = pure tt
  log_failure (err e) = do log_security start_fail; raise e

  abbrev pub logged : Run (Unit {0}) → Run (Unit {0})
  logged m = do r ← attempt m; log_failure r

  unfoldable pub update_deployment : DeploymentUpdate → List ℕ → Deployment → Run (Unit {0})
  update_deployment bundle to_stop to_start = do
    logged (stop_deployment bundle.from to_stop)
    logged (start_deployment bundle.to to_start)
