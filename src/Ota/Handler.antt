-- ===== src/Ota/Handler.antt =====
-- The handler of the requests from Astarte: `OtaRequest` of src/ota/event.rs and `OtaHandler` of
-- src/ota/ota_handler.rs, with `From<OtaRequest>` of src/ota/mod.rs.
pub mod Queue
pub mod Tokens
use text.Mathlib.Text.{◌==◌ as str_eq}
use edgehog_device_runtime.Base.{
  ℕ, suc, String, Bool, true, false, not, Option, none, some, List, [], ◌∷◌, if◌then◌else◌, ok, err,
}
use edgehog_device_runtime.Ota.Status.{
  update_already_in_progress, internal, OtaId, OtaId_eq, OtaStatus, failure,
}
use edgehog_device_runtime.Ota.Wget.{Fallible}

pub data OtaOperation : Type 0 where
  update cancel : OtaOperation

-- `TryFrom<AstarteData>` on the text
unfoldable pub parse_operation : String → Option OtaOperation
parse_operation value =
    if str_eq value "Update"
    then some update
    else if str_eq value "Cancel"
    then some cancel
    else none

pub record OtaRequest : Type 0 where
  pub operation : OtaOperation
  pub url : String
  pub uuid : ℕ

abbrev pub id_of : OtaRequest → OtaId
id_of r = record { uuid = r.uuid; url = r.url }

-- A cancellation token is a number, new for each message.
pub record OtaMessage : Type 0 where
  pub ota_id : OtaId
  pub cancel : ℕ

-- The handler with the ends of its channels: what it sent to the updater and to the publisher, the
-- latest first, and the tokens that it cancelled.
pub record OtaHandler : Type 0 where
  pub current : Option OtaMessage
  pub flag : Bool
  pub queue : List OtaMessage
  pub receiver_dropped : Bool
  pub published : List OtaStatus
  pub cancelled : List ℕ
  pub next_token : ℕ

abbrev pub start : OtaHandler
start = record {
  current = none;
  flag = false;
  queue = [];
  receiver_dropped = false;
  published = [];
  cancelled = [];
  next_token = 0;
}

abbrev publish_failure : OtaHandler → OtaStatus → OtaHandler
publish_failure s status = record s { published = status ∷ s.published }

check_current : Option OtaMessage → OtaHandler → OtaId → Bool × OtaHandler
check_current none s id = (false, s)
check_current (some c) s id =
    if not s.flag
    then (false, record s { current = none })
    else if OtaId_eq c.ota_id id
    then (true, s)
    else (true, publish_failure s (failure update_already_in_progress (some id)))

unfoldable pub check_update_already_in_progress : OtaHandler → OtaId → Bool × OtaHandler
unfolding check_current
check_update_already_in_progress s id = check_current s.current s id

abbrev new_message : OtaHandler → OtaId → OtaMessage
new_message s id = record { ota_id = id; cancel = s.next_token }

-- The flag is set before the send, which fails where the updater is gone.
send_update : OtaHandler → OtaId → OtaHandler × Fallible (Unit {0})
send_update s id =
    let m = new_message s id in
    let s' = record s { flag = true; next_token = suc s.next_token } in
    if s.receiver_dropped
    then (s', err (internal "Unable to execute HandleOtaEvent, receiver channel dropped"))
    else (record s' { queue = m ∷ s.queue; current = some m }, ok tt)

unfoldable pub handle_update : OtaHandler → OtaId → OtaHandler × Fallible (Unit {0})
unfolding check_update_already_in_progress send_update
handle_update s id =
    let (busy, s') = check_update_already_in_progress s id in
    if busy then (s', ok tt) else send_update s' id

cancel_current : Option OtaMessage → OtaHandler → OtaId → OtaHandler
cancel_current none s id =
    publish_failure s
      (failure (internal "Unable to cancel OTA request, internal request is empty") (some id))
cancel_current (some c) s id =
    if OtaId_eq c.ota_id id
    then record s { cancelled = c.cancel ∷ s.cancelled; current = none }
    else publish_failure s (
        failure (internal "Unable to cancel OTA request, they have different identifier") (some id))

unfoldable pub handle_cancel : OtaHandler → OtaId → OtaHandler
unfolding cancel_current
handle_cancel s id = cancel_current s.current s id

dispatch : OtaOperation → OtaHandler → OtaId → OtaHandler × Fallible (Unit {0})
unfolding handle_update handle_cancel
dispatch update s id = handle_update s id
dispatch cancel s id = (handle_cancel s id, ok tt)

unfoldable pub handle_event : OtaHandler → OtaRequest → OtaHandler × Fallible (Unit {0})
unfolding dispatch
handle_event s r = dispatch r.operation s (id_of r)
