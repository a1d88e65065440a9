-- ===== src/Ota/Machine/Diagram.antt =====
-- The diagram of the statuses of an update, and the steps of `next` along it.
use edgehog_device_runtime.Base.{
  ℕ, ◌<◌, ◌≡◌, ◌≢◌, refl, Bool, true, false, Option, none, some, ℤ, pos, arith, Result, ok, err,
  String, Bool-cases, inl, inr, When, When-bind,
}
use edgehog_device_runtime.Ota.Status.{
  DeployProgress, default_progress, OtaError, OtaId, OtaStatus, idle, no_pending_ota, rebooted,
  init, acknowledged, downloading, deploying, deployed, rebooting, success, error, failure,
}
use edgehog_device_runtime.Ota.Env.{Env, History, FilePath}
use edgehog_device_runtime.Ota.Update.{
  Ota, get_update_file_path, retry_download, start_update, check_bundle, download, installed,
  follow_install, install, deploy, reboot, wait_reboot, check_reboot,
}
use edgehog_device_runtime.Ota.Machine.{next_status_of}

infix 40 ◌⟶◌
pub data ◌⟶◌ : OtaStatus → OtaStatus → Type 0 where
  accept : {id : OtaId} → init id ⟶ acknowledged id
  begin_download : {id : OtaId} → acknowledged id ⟶ downloading id (pos 0)
  begin_stream : {id : OtaId} → acknowledged id ⟶ deploying id default_progress
  downloaded : {id : OtaId} {p : ℤ} → downloading id p ⟶ deploying id default_progress
  download_failed : {id : OtaId} {p : ℤ} {e : OtaError} → downloading id p ⟶ failure e (some id)
  install_done : {id : OtaId} {p : DeployProgress} → deploying id p ⟶ deployed id
  install_failed :
      {id : OtaId} {p : DeployProgress} {e : OtaError} → deploying id p ⟶ failure e (some id)
  restart : {id : OtaId} → deployed id ⟶ rebooting id
  restart_failed : {id : OtaId} {e : OtaError} → deployed id ⟶ failure e (some id)
  wait : {id : OtaId} → rebooting id ⟶ rebooting id
  nothing_pending : rebooted ⟶ no_pending_ota
  unreadable : {e : OtaError} → rebooted ⟶ failure e none
  confirmed : {id : OtaId} → rebooted ⟶ success id
  rolled_back : {id : OtaId} {e : OtaError} → rebooted ⟶ failure e (some id)
  give_up : {id : OtaId} {e : OtaError} → error e id ⟶ failure e (some id)
  rest : no_pending_ota ⟶ idle
  rest_success : {id : OtaId} → success id ⟶ idle
  rest_failure : {e : OtaError} {id : Option OtaId} → failure e id ⟶ idle

-- What a run of a step may return from a status; a dropped run returns nothing.
abbrev pub Follows : OtaStatus → Result (Unit {0}) OtaStatus → Type 0
Follows st r = When (λ st'. st ⟶ st') r

module _ (env : Env) (guarded : Bool) where
  check_bundle-Follows :
      (req : OtaId) (p : ℤ) (path : FilePath) (file : String) (h : History)
      → Follows (downloading req p) (check_bundle env guarded req path file h).0
  unfolding check_bundle
  check_bundle-Follows req p path file h = grind (arith, downloaded, download_failed)

  download-Follows :
      (s : Ota) (req : OtaId) (p : ℤ) (h : History)
      → Follows (downloading req p) (download env guarded s req h).0
  unfolding download
  download-Follows s req p h = elim (Bool-cases (get_update_file_path s).is_utf8) [
    | inr bad ↦ rw bad download_failed
    | inl good ↦
        let path = get_update_file_path s in
        simp good (
          When-bind (λ st. downloading req p ⟶ st) (retry_download env guarded req path path.text) _
            h
            (elim [
              | ok file ↦ λ h'. check_bundle-Follows req p path file h'
              | err e ↦ λ h'. download_failed
            ]))
  ]

  deploy-Follows :
      (s : Ota) (req : OtaId) (p : DeployProgress) (h : History)
      → Follows (deploying req p) (deploy env guarded s req h).0
  unfolding deploy install follow_install installed
  deploy-Follows s req p h = grind (arith, install_done, install_failed)

  reboot-Follows :
      (s : Ota) (req : OtaId) (h : History) → Follows (deployed req) (reboot env guarded s req h).0
  unfolding reboot
  reboot-Follows s req h = grind (arith, restart, restart_failed)

  wait_reboot-Follows :
      (req : OtaId) (h : History) → Follows (rebooting req) (wait_reboot env guarded req h).0
  unfolding wait_reboot
  wait_reboot-Follows req h = grind (arith, wait)

  check_reboot-Follows : (h : History) → Follows rebooted (check_reboot env guarded h).0
  unfolding check_reboot
  check_reboot-Follows h = grind (arith, nothing_pending, unreadable, confirmed, rolled_back)

  start_update-⟶ : (s : Ota) (req : OtaId) → acknowledged req ⟶ start_update s req
  unfolding start_update
  start_update-⟶ s req = grind (arith, begin_download, begin_stream)

  -- Whatever the outside answers, a completed step follows an edge of the diagram.
  pub next-Follows :
      (s : Ota) (st : OtaStatus) (h : History)
      → st ≢ idle
      → Follows st (next_status_of env guarded s st h).0
  unfolding next_status_of
  next-Follows s (init req) h _ = accept
  next-Follows s (acknowledged req) h _ = start_update-⟶ s req
  next-Follows s (downloading req p) h _ = download-Follows s req p h
  next-Follows s (deploying req p) h _ = deploy-Follows s req p h
  next-Follows s (deployed req) h _ = reboot-Follows s req h
  next-Follows s rebooted h _ = check_reboot-Follows h
  next-Follows s (rebooting req) h _ = wait_reboot-Follows req h
  next-Follows s (error e req) h _ = give_up
  next-Follows s idle h ne = absurd (ne refl)
  next-Follows s no_pending_ota h _ = rest
  next-Follows s (success _) h _ = rest_success
  next-Follows s (failure _ _) h _ = rest_failure

-- The steps that are left at most, where no reboot is waited for.
abbrev pub rank : OtaStatus → ℕ
rank idle = 0
rank no_pending_ota = 1
rank (success _) = 1
rank (failure _ _) = 1
rank (rebooting _) = 2
rank rebooted = 2
rank (error _ _) = 2
rank (deployed _) = 3
rank (deploying _ _) = 4
rank (downloading _ _) = 5
rank (acknowledged _) = 6
rank (init _) = 7

abbrev pub is_waiting : OtaStatus → Bool
is_waiting (rebooting _) = true
is_waiting _ = false

-- Every edge but the one of the wait goes down.
pub rank-⟶ : {a b : OtaStatus} → a ⟶ b → is_waiting a ≡ false → rank b < rank a
rank-⟶ accept w = omega arith
rank-⟶ wait w = cc
rank-⟶ _ w = omega arith
