-- ===== src/Ota/Event.antt =====
-- The event sent to Astarte for a status: `OtaEvent`, `OtaStatusMessage` and `From<&OtaError>` of
-- src/ota/ota_handler.rs, and `as_event` of src/ota/mod.rs.
pub mod Reports
use text.Mathlib.Text.{◌==◌ as str_eq}
use edgehog_device_runtime.Base.{ℕ, String, Option, none, some, if◌then◌else◌, ℤ, pos}
use edgehog_device_runtime.Ota.Status.{
  OtaError, request, update_already_in_progress, network, io, internal, invalid_base_image,
  system_rollback, canceled, inconsistent_state, OtaId, OtaStatus, acknowledged, downloading,
  deploying, deployed, rebooting, success, error, failure,
}

pub record OtaEvent : Type 0 where
  pub request_uuid : String
  pub status : String
  pub status_progress : ℤ
  pub status_code : String
  pub message : String

pub record OtaStatusMessage : Type 0 where
  pub status_code : String
  pub message : String

abbrev status_message : String → String → OtaStatusMessage
status_message code text = record { status_code = code; message = text }

unfoldable pub message_of : OtaError → OtaStatusMessage
message_of (request m) = status_message "RequestError" m
message_of update_already_in_progress = status_message "UpdateAlreadyInProgress" ""
message_of (network m) = status_message "NetworkError" m
message_of (io m) = status_message "IOError" m
message_of (internal m) = status_message "InternalError" m
message_of (invalid_base_image m) = status_message "InvalidBaseImage" m
message_of (system_rollback m) = status_message "SystemRollback" m
message_of canceled = status_message "Canceled" ""
message_of inconsistent_state = status_message "InternalError" ""

abbrev blank : OtaEvent
blank = record {
  request_uuid = "";
  status = "";
  status_progress = pos 0;
  status_code = "";
  message = "";
}

-- the check on the request's uuid that ends `as_event`
unfoldable pub checked : OtaEvent → Option OtaEvent
checked e = if str_eq e.request_uuid "" then none else some e

-- `uuid_text` is `Uuid::to_string`
module _ (uuid_text : ℕ → String) where
  abbrev named : OtaId → String → OtaEvent
  named id status = record blank { request_uuid = uuid_text id.uuid; status = status }

  abbrev failed : OtaId → String → OtaError → OtaEvent
  failed id status e = record (named id status) {
    status_code = (message_of e).status_code;
    message = (message_of e).message;
  }

  unfoldable pub as_event : OtaStatus → Option OtaEvent
  unfolding checked message_of
  as_event (acknowledged id) = checked (named id "Acknowledged")
  as_event (downloading id p) = checked (record (named id "Downloading") { status_progress = p })
  as_event (deploying id p) =
      checked
        (record (named id "Deploying") { status_progress = p.percentage; message = p.message })
  as_event (deployed id) = checked (named id "Deployed")
  as_event (rebooting id) = checked (named id "Rebooting")
  as_event (success id) = checked (named id "Success")
  as_event (failure e (some id)) = checked (failed id "Failure" e)
  as_event (error e id) = checked (failed id "Error" e)
  as_event _ = none
