-- ===== src/Forwarder/Collection.antt =====
-- The collection of connections: edgehog-device-runtime-forwarder/src/collection.rs, with
-- `ConnectionHandle::send` of connection/mod.rs. The map is a list of its entries.
pub mod Keeps
use edgehog_device_runtime.Base.{
  ℕ, Bool, true, false, not, Option, none, some, List, [], ◌∷◌, length, Result, ok, err,
}
use edgehog_device_runtime.Base.State.{Stateful, fail}
use edgehog_device_runtime.Base.Text.{same}
use edgehog_device_runtime.Forwarder.{
  RequestId, HttpRequest, HttpMessage, request, response, WebSocketMessage, ProtoMessage, http,
  web_socket, is_ws_upgrade, Report, ConnectionError, channel, failed, Error, connection,
  wrong_message, connection_not_found, id_already_used, waits, WriteHandle, http_handle, ws_handle,
  ConnectionHandle, Call, poll_tasks, open_http, open_ws, send_task, abort, Env, World,
}

abbrev pub Entries : Type 0
Entries = List (RequestId × ConnectionHandle)

abbrev pub Run : Type 0
Run = Stateful World Error (Unit {0})

abbrev pub record_call : Call → World → World
record_call c w = record w { calls = c ∷ w.calls }

abbrev pub or_else : {A : Type 0} → Bool → A → A → A
or_else true x y = x
or_else false x y = y

unfoldable pub find : RequestId → Entries → Option ConnectionHandle
find id [] = none
find id ((k, h) ∷ es) = or_else (same k id) (some h) (find id es)

-- the entry's value is replaced
unfoldable pub replace : RequestId → ConnectionHandle → Entries → Entries
replace id h [] = []
replace id h ((k, old) ∷ es) = or_else (same k id) ((k, h) ∷ es) ((k, old) ∷ replace id h es)

-- `HashMap::retain` on the handles
unfoldable pub retain : (ConnectionHandle → Bool) → Entries → Entries
retain keep [] = []
retain keep ((k, h) ∷ es) = or_else (keep h) ((k, h) ∷ retain keep es) (retain keep es)

-- the tasks that are aborted, the latest first
unfoldable pub abort_all : Entries → List Call → List Call
abort_all [] calls = calls
abort_all ((k, h) ∷ es) calls = abort_all es (abort h.task ∷ calls)

unfoldable pub insert_new :
    RequestId → Result Error ConnectionHandle × World → Result Error (Unit {0}) × World
insert_new id (err e, w) = (err e, w)
insert_new id (ok h, w) = (ok tt, record w { connections = (id, h) ∷ w.connections })

unfoldable pub replace_old :
    RequestId → Result Error ConnectionHandle × World → Result Error (Unit {0}) × World
replace_old id (err e, w) = (err e, w)
replace_old id (ok h, w) = (ok tt, record w { connections = replace id h w.connections })

abbrev pub sent : Option Bool → Result Error (Unit {0})
sent (some true) = ok tt
sent (some false) = err (connection channel)
sent none = err waits

unfoldable pub disconnect : World → World
disconnect w = record { connections = []; calls = abort_all w.connections w.calls }

module _ (env : Env) where
  -- `Connection::with_http` or `with_ws`: the task has the number of the calls before it.
  abbrev pub opened : WriteHandle → List Call → Option Report → Result Error ConnectionHandle
  opened write calls none = ok (record { task = length calls; write = write })
  opened write calls (some e) = err (connection (failed e))

  unfoldable pub open_task : WriteHandle → Call → Stateful World Error ConnectionHandle
  open_task write c w = let w' = record_call c w in (opened write w.calls (env.build w'.calls), w')

  unfoldable pub reuse : RequestId → Stateful World Error ConnectionHandle → Bool → Run
  reuse id f false w = (err (id_already_used id), w)
  reuse id f true w = replace_old id (f w)

  unfoldable pub add_entry :
      RequestId → Stateful World Error ConnectionHandle → Option ConnectionHandle → Run
  add_entry id f none w = insert_new id (f w)
  add_entry id f (some h) w = reuse id f (env.is_finished w.calls h.task) w

  unfoldable pub try_add : RequestId → Stateful World Error ConnectionHandle → Run
  try_add id f w = add_entry id f (find id w.connections) w

  unfoldable pub add_ws : RequestId → HttpRequest → Run
  add_ws id req = try_add id (open_task ws_handle (open_ws id req))

  abbrev pub upgrade_or_request : RequestId → HttpRequest → Bool → Run
  upgrade_or_request id req true = add_ws id req
  upgrade_or_request id req false = try_add id (open_task http_handle (open_http id req))

  unfoldable pub handle_http : RequestId → HttpMessage → Run
  handle_http id (response _) = fail (wrong_message id)
  handle_http id (request req) = upgrade_or_request id req (is_ws_upgrade req)

  -- `ConnectionHandle::send`
  unfoldable pub send_message : WebSocketMessage → ℕ → WriteHandle → Run
  send_message m task http_handle w = (err (connection channel), w)
  send_message m task ws_handle w =
      let w' = record_call (send_task task m) w in (sent (env.is_receiving w'.calls), w')

  unfoldable pub send_found : RequestId → WebSocketMessage → Option ConnectionHandle → Run
  send_found id m none = fail (connection_not_found id)
  send_found id m (some h) = send_message m h.task h.write

  unfoldable pub handle_ws : RequestId → WebSocketMessage → Run
  handle_ws id m w = send_found id m (find id w.connections) w

  unfoldable pub remove_terminated : World → World
  remove_terminated w =
      let calls = poll_tasks ∷ w.calls in
      record {
        connections = retain (λ h. not (env.is_finished calls h.task)) w.connections;
        calls = calls;
      }

  unfoldable pub dispatch : ProtoMessage → Run
  dispatch (http id m) = handle_http id m
  dispatch (web_socket id m) = handle_ws id m

  unfoldable pub handle_proto_msg : ProtoMessage → Run
  handle_proto_msg msg w = dispatch msg (remove_terminated w)
