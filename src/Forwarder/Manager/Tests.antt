-- ===== src/Forwarder/Manager/Tests.antt =====
-- The theorems on the forwarder at concrete inputs, and runs of the model.
use edgehog_device_runtime.Base.{
  ℕ, zero, suc, ◌≡◌, refl, true, false, Option, none, some, List, [], ◌∷◌, ◌++◌, ok,
}
use edgehog_device_runtime.Base.Text.{same}
use edgehog_device_runtime.Forwarder.{
  RequestId, HttpRequest, plain, request, response, text, ProtoMessage, http, web_socket,
  is_ws_upgrade, ConnectionHandle, http_handle, ws_handle, binary_frame, close_frame, open_ws,
  send_task, abort, poll_tasks, Env, World,
}
use edgehog_device_runtime.Forwarder.Collection.{
  find, retain, abort_all, open_task, insert_new, add_entry, try_add, add_ws, handle_http,
  send_message, send_found, handle_ws, remove_terminated, disconnect, dispatch, handle_proto_msg,
}
use edgehog_device_runtime.Forwarder.Collection.Keeps.{
  HasConnection, handle_proto_msg-HasConnection,
}
use edgehog_device_runtime.Forwarder.Manager.{
  Event, receive, logged, handle_binary, handle_tung_msg, event_loop, after, handle_connections,
}
use edgehog_device_runtime.Forwarder.Manager.Channels.{
  Link, Step, Steps, channel_size, ws_channel_size, initial, jam, jam-Steps,
}

abbrev seven : RequestId
seven = 7 ∷ []

abbrev nine : RequestId
nine = 9 ∷ []

abbrev upgrade : HttpRequest
upgrade = record {
  scheme = plain;
  upgrade = (b'w' ∷ b'e' ∷ b'b' ∷ b's' ∷ b'o' ∷ b'c' ∷ b'k' ∷ b'e' ∷ b't' ∷ []) ∷ [];
  fields = 0;
}

-- the frame 0 opens a terminal, and all others write to it
abbrev message : ℕ → Option ProtoMessage
message zero = some (http nine (request upgrade))
message (suc n) = some (web_socket nine (text (suc n)))

abbrev env : Env
env = record {
  is_finished = λ _ _. false;
  build = λ _. none;
  is_receiving = λ _. some true;
  decode = message;
  encode = λ _. none;
  send = λ _. some none;
}

abbrev old : ConnectionHandle
old = record { task = 90; write = http_handle }

abbrev world : World
world = record { connections = (seven, old) ∷ []; calls = [] }

abbrev opens_terminal : List Event
opens_terminal = receive (ok (binary_frame 0)) ∷ receive (ok (binary_frame 5)) ∷ []

runs_terminal : handle_connections env opens_terminal world ≡ (
  none,
  record {
    connections = (nine, record { task = 1; write = ws_handle }) ∷ (seven, old) ∷ [];
    calls = send_task 1 (text 5) ∷ poll_tasks ∷ open_ws nine upgrade ∷ poll_tasks ∷ [];
  },
)
unfolding handle_connections after event_loop handle_tung_msg handle_binary logged handle_proto_msg
    remove_terminated retain dispatch handle_http is_ws_upgrade same add_ws try_add add_entry find
    open_task insert_new handle_ws send_found send_message
runs_terminal = refl

-- all tasks are aborted
closes :
    handle_connections env (receive (ok close_frame) ∷ []) world
    ≡ (some (ok tt), record { connections = []; calls = abort 90 ∷ [] })
unfolding handle_connections after event_loop handle_tung_msg disconnect abort_all
closes = refl

handle_proto_msg-HasConnection_example :
    HasConnection seven old (handle_proto_msg env (http seven (response 0)) world).1
unfolding find same
handle_proto_msg-HasConnection_example =
    handle_proto_msg-HasConnection env seven old (http seven (response 0)) world refl refl

-- A message to a task whose channel stays full, and no round after it.
gets_stuck :
    (handle_connections
      (record env { is_receiving = λ _. none })
      (opens_terminal ++ (receive (ok close_frame) ∷ []))
      world).0
    ≡ none
unfolding handle_connections after event_loop handle_tung_msg handle_binary logged handle_proto_msg
    remove_terminated retain dispatch handle_http is_ws_upgrade same add_ws try_add add_entry find
    open_task insert_new handle_ws send_found send_message
gets_stuck = refl

-- with the sizes of the source
jam-Steps_example :
    Steps channel_size ws_channel_size initial (jam 50 50)
    × ((s : Link) → Step channel_size ws_channel_size (jam 50 50) s → ⊥)
jam-Steps_example = jam-Steps channel_size ws_channel_size
