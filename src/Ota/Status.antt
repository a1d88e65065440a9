-- ===== src/Ota/Status.antt =====
-- The data of src/ota/mod.rs: errors, statuses and identifiers of an update.
use text.Mathlib.Text.{◌==◌ as str_eq}
use edgehog_device_runtime.Base.{
  ℕ, String, ◌==◌, Bool, true, false, ◌&&◌, Option, none, some, ℤ, pos,
}

pub record DeployProgress : Type 0 where
  pub percentage : ℤ  -- i32
  pub message : String

abbrev pub default_progress : DeployProgress
default_progress = record { percentage = pos 0; message = "" }

pub data DeployStatus : Type 0 where
  progress : DeployProgress → DeployStatus
  completed : ℤ → DeployStatus

pub data OtaError : Type 0 where
  request : String → OtaError
  update_already_in_progress : OtaError
  network io internal invalid_base_image system_rollback : String → OtaError
  canceled inconsistent_state : OtaError

pub record PersistentState : Type 0 where
  pub uuid : ℕ
  pub slot : String

-- A `Uuid` is a number of 128 bits.
pub record OtaId : Type 0 where
  pub uuid : ℕ
  pub url : String

pub data OtaStatus : Type 0 where
  idle no_pending_ota rebooted : OtaStatus
  init acknowledged : OtaId → OtaStatus
  downloading : OtaId → ℤ → OtaStatus
  deploying : OtaId → DeployProgress → OtaStatus
  deployed rebooting success : OtaId → OtaStatus
  error : OtaError → OtaId → OtaStatus
  failure : OtaError → Option OtaId → OtaStatus

unfoldable pub is_cancellable : OtaStatus → Bool
is_cancellable (init _) = true
is_cancellable (acknowledged _) = true
is_cancellable (downloading _ _) = true
is_cancellable _ = false

unfoldable pub ota_id : OtaStatus → Option OtaId
ota_id idle = none
ota_id no_pending_ota = none
ota_id rebooted = none
ota_id (init id) = some id
ota_id (acknowledged id) = some id
ota_id (downloading id _) = some id
ota_id (deploying id _) = some id
ota_id (deployed id) = some id
ota_id (rebooting id) = some id
ota_id (success id) = some id
ota_id (error _ id) = some id
ota_id (failure _ id) = id

-- `==` on identifiers, derived from their fields.
unfoldable pub OtaId_eq : OtaId → OtaId → Bool
OtaId_eq a b = a.uuid == b.uuid && str_eq a.url b.url
