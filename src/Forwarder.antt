-- ===== src/Forwarder.antt =====
-- The forwarder of remote terminals: the data of edgehog-device-runtime-forwarder/src. A message carries
-- its id and what the collection of connections reads of it; the rest of it is an opaque number.
pub mod Collection
pub mod Manager
pub mod Session
pub mod Messages
use edgehog_device_runtime.Base.{ℕ, Bool, Option, List, [], ◌∷◌, any}
use edgehog_device_runtime.Base.Text.{Text, same}

-- `Id`: bytes
abbrev pub RequestId : Type 0
RequestId = Text

pub data Scheme : Type 0 where
  plain tls : Scheme

-- A request with its scheme and the values of its header `Upgrade`.
pub record HttpRequest : Type 0 where
  pub scheme : Scheme
  pub upgrade : List Text
  pub fields : ℕ

pub data HttpMessage : Type 0 where
  request : HttpRequest → HttpMessage
  response : ℕ → HttpMessage

pub data WebSocketMessage : Type 0 where
  text binary ping pong : ℕ → WebSocketMessage
  close : ℕ → Option Text → WebSocketMessage

pub data ProtoMessage : Type 0 where
  http : RequestId → HttpMessage → ProtoMessage
  web_socket : RequestId → WebSocketMessage → ProtoMessage

-- `websocket`
abbrev websocket : Text
websocket = b'w' ∷ b'e' ∷ b'b' ∷ b's' ∷ b'o' ∷ b'c' ∷ b'k' ∷ b'e' ∷ b't' ∷ []

-- `check_ws_upgrade_headers`
unfoldable pub is_ws_upgrade : HttpRequest → Bool
is_ws_upgrade req = any (λ v. same v websocket) req.upgrade

-- an error of a library, as an opaque number
abbrev pub Report : Type 0
Report = ℕ

-- The errors of libraries are one.
pub data ConnectionError : Type 0 where
  channel wrong_protocol : ConnectionError
  failed : Report → ConnectionError

-- The errors of the collection.
pub data Error : Type 0 where
  connection : ConnectionError → Error
  wrong_message connection_not_found id_already_used : RequestId → Error
  -- no error of the source: the call waits for ever
  waits : Error

pub data WriteHandle : Type 0 where
  http_handle ws_handle : WriteHandle

-- A handle of a task, which is known by its number.
pub record ConnectionHandle : Type 0 where
  pub task : ℕ
  pub write : WriteHandle

-- A frame of the WebSocket to Edgehog.
pub data TungMessage : Type 0 where
  ping_frame pong_frame text_frame binary_frame other_frame : ℕ → TungMessage
  close_frame : TungMessage

pub data TungError : Type 0 where
  connection_closed already_closed capacity : TungError
  broken : Report → TungError

-- The tasks are asked whether they are finished. A task is opened, gets a message, or is aborted. A
-- frame is sent to Edgehog.
pub data Call : Type 0 where
  poll_tasks : Call
  open_http open_ws : RequestId → HttpRequest → Call
  send_task : ℕ → WebSocketMessage → Call
  abort : ℕ → Call
  send_frame : TungMessage → Call

pub record Env : Type 0 where
  pub is_finished : List Call → ℕ → Bool
  pub build : List Call → Option Report
  -- whether the task receives the message, or `none` where its channel stays full for ever
  pub is_receiving : List Call → Option Bool
  pub decode : ℕ → Option ProtoMessage
  pub encode : ProtoMessage → Option ℕ
  -- `none` if the token is cancelled first
  pub send : List Call → Option (Option TungError)

pub record World : Type 0 where
  pub connections : List (RequestId × ConnectionHandle)
  pub calls : List Call
