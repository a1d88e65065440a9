-- ===== src/Ota/Update.antt =====
-- The steps of an update: `struct Ota` of src/ota/mod.rs and its methods up to `do_pending_ota`.
pub mod Slots
pub mod Reports
pub mod Retry
use Prim.Native.String.{◌++◌}
use text.Mathlib.Text.{◌==◌ as str_eq}
use edgehog_device_runtime.Base.{
  ℕ, zero, suc, ◌+◌, ◌^◌, String, Bool, true, false, Option, none, some, List, [], ◌∷◌,
  if◌then◌else◌, ok, err, pure, ◌>>=◌, ◌>>◌, ℤ, pos, negsuc, ◌-ℤ◌, leb_ℤ,
}
use edgehog_device_runtime.Ota.Status.{
  DeployProgress, DeployStatus, progress, completed, default_progress, PersistentState, io,
  internal, invalid_base_image, system_rollback, OtaId, OtaStatus, no_pending_ota, downloading,
  deploying, deployed, rebooting, success, error, failure,
}
use edgehog_device_runtime.Ota.Env.{
  Env, FilePath, join, Run, await, install_bundle, info, last_error, operation, compatible,
  boot_slot, receive_completed, get_primary, mark, repo_exists, repo_read, repo_write, publish,
  next_status, reboot_now, sleep,
}
use edgehog_device_runtime.Ota.Wget.{Fallible, wget, create_http_client}

pub data Reboot : Type 0 where
  default external : Reboot

pub record OtaConfig : Type 0 where
  pub enabled : Bool
  pub reboot : Reboot
  pub streaming : Bool

-- `flag` is the atomic that is shared with the handler.
pub record Ota : Type 0 where
  pub config : OtaConfig
  pub download_file_path : FilePath
  pub ota_status : OtaStatus
  pub flag : Bool

unfoldable pub get_update_file_path : Ota → FilePath
unfolding join
get_update_file_path s = join s.download_file_path "update.bin"

unfoldable pub get_install_uri : Ota → OtaId → String
unfolding get_update_file_path
get_install_uri s req = if s.config.streaming then req.url else (get_update_file_path s).text

unfoldable pub start_update : Ota → OtaId → OtaStatus
start_update s req =
    if s.config.streaming then deploying req default_progress else downloading req (pos 0)

-- `i32` subtraction in two's complement
abbrev pub wrap_i32 : ℤ → ℤ
wrap_i32 x =
    if leb_ℤ x (negsuc 2147483648)
    then x -ℤ negsuc 4294967295
    else if leb_ℤ (pos 2147483648) x
    then x -ℤ pos 4294967296
    else x

abbrev pub deploy_perc_rounding_step : ℤ
deploy_perc_rounding_step = pos 10

-- The percentage that a new one is compared with.
abbrev pub last_sent : DeployStatus → ℤ → ℤ
last_sent (progress p) now = p.percentage
last_sent (completed _) now = now

unfoldable pub is_due : DeployStatus → DeployProgress → Bool
unfolding ◌-ℤ◌
is_due prev p =
    leb_ℤ deploy_perc_rounding_step (wrap_i32 (p.percentage -ℤ last_sent prev p.percentage))

module _ (env : Env) (guarded : Bool) where
  unfoldable pub retry_loop : OtaId → FilePath → String → ℕ → ℕ → Run (Fallible String)
  retry_loop req path file zero i =
      pure (err (internal "Too many attempts to download the OTA file"))
  retry_loop req path file (suc left) i = do
    res ← wget env guarded req path
    elim res [
      | ok _ ↦ pure (ok file)
      | err e ↦ (do
        await env guarded (publish (error e req)) (λ _. tt)
        await env guarded (sleep (2 ^ i)) (λ _. tt)
        retry_loop req path file left (i + 1))
    ]

  unfoldable pub retry_download : OtaId → FilePath → String → Run (Fallible String)
  retry_download req path file = do
    client ← create_http_client env
    elim client [ ok _ ↦ retry_loop req path file 5 1 | err e ↦ pure (err e) ]

  unfoldable pub check_bundle : OtaId → FilePath → String → Run OtaStatus
  check_bundle req path file = do
    bundle ← await env guarded (info file) env.info
    elim bundle [
      | none ↦ pure (
          failure (invalid_base_image ("Unable to get info from ota_file in " ++ path.text))
            (some req))
      | some b ↦ (do
        system ← await env guarded compatible env.compatible
        pure (elim system [
          | none ↦
              failure (invalid_base_image "Unable to get info from current deployed image")
                (some req)
          | some s ↦
              if str_eq b.compatible s
              then deploying req default_progress
              else failure
                  (invalid_base_image
                    ("bundle " ++ b.compatible ++ " is not compatible with system " ++ s))
                  (some req)
        ]))
    ]

  unfoldable pub download : Ota → OtaId → Run OtaStatus
  download s req =
      let path = get_update_file_path s in
      if path.is_utf8
      then (do
        res ← retry_download req path path.text
        elim res [ err e ↦ pure (failure e (some req)) | ok file ↦ check_bundle req path file ])
      else pure (failure (io "Wrong download file path") (some req))

  -- `try_fold` over the installer's signals; `none` is an error of the stream
  unfoldable pub fold_status :
      OtaId → DeployStatus → List (Option DeployStatus) → Run (Option DeployStatus)
  fold_status req prev [] = do await env guarded next_status (λ _. tt); pure (some prev)
  fold_status req prev (none ∷ rest) = do await env guarded next_status (λ _. tt); pure none
  fold_status req prev (some (completed signal) ∷ rest) = do
    await env guarded next_status (λ _. tt)
    fold_status req (completed signal) rest
  fold_status req prev (some (progress p) ∷ rest) = do
    await env guarded next_status (λ _. tt)
    elim (is_due prev p) [
      | true ↦ (do
        await env guarded (publish (deploying req p)) (λ _. tt)
        fold_status req (progress p) rest)
      | false ↦ fold_status req prev rest
    ]

  unfoldable pub installed : OtaId → Option DeployStatus → Run OtaStatus
  installed req none =
      pure (failure (internal "Unable to receive the install completed event") (some req))
  installed req (some (progress _)) =
      pure (failure (internal "No progress completion event received") (some req))
  installed req (some (completed (pos zero))) = pure (deployed req)
  installed req (some (completed signal)) = do
    await env guarded last_error env.last_error
    pure (
        failure (invalid_base_image ("Update failed with signal " ++ env.decimal signal))
          (some req))

  unfoldable pub follow_install : OtaId → List (Option DeployStatus) → Run OtaStatus
  follow_install req items = do
    last ← fold_status req (progress default_progress) items
    installed req last

  unfoldable pub install : OtaId → String → Run OtaStatus
  install req uri = do
    started ← await env guarded (install_bundle uri) env.install_bundle
    elim started [
      | false ↦ pure (failure (invalid_base_image "Unable to install ota image") (some req))
      | true ↦ (do
        op ← await env guarded operation env.operation
        elim op [
          | none ↦ pure (failure (internal "Unable to get status of ota operation") (some req))
          | some _ ↦ (do
            stream ← await env guarded receive_completed env.receive_completed
            elim stream [
              | none ↦ pure (failure (internal "Unable to get status of ota operation") (some req))
              | some items ↦ follow_install req items
            ])
        ])
    ]

  unfoldable pub deploy : Ota → OtaId → Run OtaStatus
  deploy s req = do
    slot ← await env guarded boot_slot env.boot_slot
    elim slot [
      | none ↦ pure (failure (internal "Unable to identify the booted slot") (some req))
      | some booted ↦ (do
        let state : PersistentState = record { uuid = req.uuid; slot = booted }
        written ← await env guarded (repo_write state) env.repo_write
        elim written [
          | false ↦ pure (failure (io "Unable to persist ota state") (some req))
          | true ↦ install req (get_install_uri s req)
        ])
    ]

  unfoldable pub reboot : Ota → OtaId → Run OtaStatus
  reboot s req = do
    await env guarded (publish (rebooting req)) (λ _. tt)
    elim s.config.reboot [
      | default ↦ (do
        accepted ← await env guarded reboot_now env.reboot_now
        pure (
            if accepted
            then rebooting req
            else failure (internal "Unable to run reboot command") (some req)))
      | external ↦ pure (rebooting req)
    ]

  unfoldable pub wait_reboot : OtaId → Run OtaStatus
  wait_reboot req = do await env guarded (sleep 30) (λ _. tt); pure (rebooting req)

  unfoldable pub do_pending_ota : PersistentState → Run (Fallible (Unit {0}))
  do_pending_ota state = do
    slot ← await env guarded boot_slot env.boot_slot
    elim slot [
      | none ↦ pure (err (internal "Unable to identify the booted slot"))
      | some booted ↦
          if str_eq state.slot booted
          then pure (err (system_rollback "Unable to switch slot"))
          else (do
            primary ← await env guarded get_primary env.get_primary
            elim primary [
              | none ↦ pure (err (internal "Unable to get the current primary slot"))
              | some p ↦ (do
                marked ← await env guarded (mark "good" p) env.mark
                pure (elim marked [
                  | none ↦ err (internal "Unable to run marking slot operation")
                  | some (slot', _) ↦
                      if str_eq p slot' then ok tt else err (internal "Unable to mark slot")
                ]))
            ])
    ]

  unfoldable pub check_reboot : Run OtaStatus
  check_reboot = do
    pending ← await env guarded repo_exists env.repo_exists
    elim pending [
      | false ↦ pure no_pending_ota
      | true ↦ (do
        state ← await env guarded repo_read env.repo_read
        elim state [
          | none ↦ pure (failure (io "Unable to read pending ota state") none)
          | some st ↦ (do
            let req : OtaId = record { uuid = st.uuid; url = "" }
            res ← do_pending_ota st
            pure (elim res [ ok _ ↦ success req | err e ↦ failure e (some req) ]))
        ])
    ]
