-- ===== src/Ota/Update/Slots.antt =====
-- The slot that `deploy` stores and that `check_reboot` compares, in src/ota/mod.rs.
use text.Mathlib.Text.{◌==◌ as str_eq}
use edgehog_device_runtime.Base.{
  ◌≡◌, refl, true, false, String, Option, none, some, List, [], ◌∷◌, if◌then◌else◌, arith, ok,
  Bool-cases, inl, inr,
}
use edgehog_device_runtime.Ota.Status.{
  DeployStatus, progress, completed, PersistentState, OtaId, OtaStatus, internal, system_rollback,
  deployed, success, failure,
}
use edgehog_device_runtime.Ota.Env.{
  Env, History, repo_write, repo_clear, boot_slot, repo_exists, repo_read, get_primary, mark,
}
use edgehog_device_runtime.Ota.Update.{
  Ota, is_due, fold_status, installed, follow_install, install, get_install_uri, deploy,
  do_pending_ota, check_reboot,
}

-- What the state file holds after these calls.
unfoldable pub last_written : History → Option PersistentState
last_written [] = none
last_written (repo_write st ∷ h) = some st
last_written (repo_clear ∷ h) = none
last_written (_ ∷ h) = last_written h

module _ (env : Env) where
  fold_status-last_written :
      (req : OtaId) (prev : DeployStatus) (items : List (Option DeployStatus)) (h : History)
      → last_written (fold_status env false req prev items h).1 ≡ last_written h
  unfolding fold_status last_written
  fold_status-last_written req prev [] h = refl
  fold_status-last_written req prev (none ∷ rest) h = refl
  fold_status-last_written req prev (some (completed n) ∷ rest) h =
      fold_status-last_written req (completed n) rest _
  fold_status-last_written req prev (some (progress p) ∷ rest) h =
      elim (Bool-cases (is_due prev p)) [
        | inl due ↦ rw due (fold_status-last_written req (progress p) rest _)
        | inr early ↦ rw early (fold_status-last_written req prev rest _)
      ]

  installed-last_written :
      (req : OtaId) (last : Option DeployStatus) (h : History)
      → last_written (installed env false req last h).1 ≡ last_written h
  unfolding installed last_written
  installed-last_written req last h = ground arith

  follow_install-last_written :
      (req : OtaId) (items : List (Option DeployStatus)) (h : History)
      → last_written (follow_install env false req items h).1 ≡ last_written h
  unfolding follow_install
  follow_install-last_written req items h =
      grind (arith, fold_status-last_written, installed-last_written)

  install-last_written :
      (req : OtaId) (uri : String) (h : History)
      → last_written (install env false req uri h).1 ≡ last_written h
  unfolding install last_written
  install-last_written req uri h = grind (arith, follow_install-last_written)

  -- A deployment that succeeded has stored its identifier and the slot that was booted.
  deploy-last_written :
      (s : Ota) (req : OtaId) (h : History) (slot : String)
      → env.boot_slot (boot_slot ∷ h) ≡ some slot
      → (deploy env false s req h).0 ≡ ok (deployed req)
      → last_written (deploy env false s req h).1 ≡ some (record { uuid = req.uuid; slot = slot })
  unfolding deploy last_written
  deploy-last_written s req h slot b d = ground (
    arith,
    install-last_written req (get_install_uri s req)
        (repo_write (record { uuid = req.uuid; slot = slot }) ∷ boot_slot ∷ h),
  )

-- The identifier that survives a reboot: the URL is lost.
abbrev pub restored : OtaId → OtaId
restored req = record req { url = "" }

-- What a reboot should lead to, from the slots before and after it, the primary slot and the slot
-- that was marked.
abbrev pub verdict : OtaId → String → String → String → String → OtaStatus
verdict req before after primary marked =
    if str_eq before after
    then failure (system_rollback "Unable to switch slot") (some req)
    else if str_eq primary marked
    then success req
    else failure (internal "Unable to mark slot") (some req)

-- A deployment that succeeded from slot `before` is judged after the reboot by the slot that is then
-- booted: the same slot is a rollback; another one is a success if the primary slot could be marked,
-- and an internal error otherwise. The reboot keeps the state file, and the updater answers.
pub check_reboot-deploy :
    (env env' : Env) (s : Ota) (req : OtaId) (h h' : History)
    (before after primary marked message : String)
    → env.boot_slot (boot_slot ∷ h) ≡ some before
    → (deploy env false s req h).0 ≡ ok (deployed req)
    → env'.repo_exists (repo_exists ∷ h') ≡ true
    → env'.repo_read (repo_read ∷ repo_exists ∷ h') ≡ last_written (deploy env false s req h).1
    → env'.boot_slot (boot_slot ∷ repo_read ∷ repo_exists ∷ h') ≡ some after
    → env'.get_primary (get_primary ∷ boot_slot ∷ repo_read ∷ repo_exists ∷ h') ≡ some primary
    → env'.mark (mark "good" primary ∷ get_primary ∷ boot_slot ∷ repo_read ∷ repo_exists ∷ h')
      ≡ some (marked, message)
    → (check_reboot env' false h').0 ≡ ok (verdict (restored req) before after primary marked)
unfolding check_reboot do_pending_ota
check_reboot-deploy env env' s req h h' before after primary marked message b d x r a p m =
    ground (arith, deploy-last_written env s req h before b d)
