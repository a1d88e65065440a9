-- ===== src/Forwarder/Messages.antt =====
-- The messages of the forwarder as protobuf messages and as WebSocket frames: the conversions of
-- edgehog-device-runtime-forwarder/src/messages.rs. A request or a response is converted by a codec, a
-- parameter. A close code is a number.
pub mod RoundTrip
mod Tests
use edgehog_device_runtime.Base.{
  ℕ, ltb, if◌then◌else◌, Option, none, some, List, [], ◌∷◌, Result, ok, err,
}
use edgehog_device_runtime.Base.Text.{Text}
use edgehog_device_runtime.Forwarder.{
  RequestId, Scheme, plain, tls, HttpRequest, HttpMessage, request, response, WebSocketMessage,
  text, binary, ping, pong, close, ProtoMessage, http, web_socket,
}

-- The messages of edgehog-device-forwarder-proto, with a request or a response as an opaque number.
pub data ProtobufWs : Type 0 where
  text_field binary_field ping_field pong_field : ℕ → ProtobufWs
  close_field : ℕ → Text → ProtobufWs

pub data ProtobufHttp : Type 0 where
  request_field response_field : ℕ → ProtobufHttp

pub data Protocol : Type 0 where
  http_protocol https_protocol : Text → Option ProtobufHttp → Protocol
  ws_protocol : Text → Option ProtobufWs → Protocol

pub data ProtocolError : Type 0 where
  empty invalid_port_number wrong_ws_frame : ProtocolError
  other : ℕ → ProtocolError

-- `HttpRequest::with_scheme`, the conversions of a response, and those back
pub record Codec : Type 0 where
  pub read_request : Scheme → ℕ → Result ProtocolError HttpRequest
  pub write_request : HttpRequest → ℕ
  pub read_response : ℕ → Result ProtocolError ℕ
  pub write_response : ℕ → ℕ

unfoldable pub id_of : Text → Result ProtocolError RequestId
id_of [] = err empty
id_of (c ∷ cs) = ok (c ∷ cs)

-- `close.reason.is_empty().not().then_some(…)`
unfoldable pub reason_of : Text → Option Text
reason_of [] = none
reason_of (c ∷ cs) = some (c ∷ cs)

-- `unwrap_or_default`
unfoldable pub reason_text : Option Text → Text
reason_text none = []
reason_text (some reason) = reason

unfoldable pub ws_message_of : ProtobufWs → Result ProtocolError WebSocketMessage
ws_message_of (text_field n) = ok (text n)
ws_message_of (binary_field n) = ok (binary n)
ws_message_of (ping_field n) = ok (ping n)
ws_message_of (pong_field n) = ok (pong n)
ws_message_of (close_field code reason) =
    if ltb code 65536 then ok (close code (reason_of reason)) else err invalid_port_number

abbrev with_id :
    Result ProtocolError RequestId → (RequestId → ProtoMessage) → Result ProtocolError ProtoMessage
with_id (err e) f = err e
with_id (ok id) f = ok (f id)

-- the id is checked after the message
unfoldable pub web_socket_of :
    Text → Result ProtocolError WebSocketMessage → Result ProtocolError ProtoMessage
web_socket_of id (err e) = err e
web_socket_of id (ok m) = with_id (id_of id) (λ i. web_socket i m)

abbrev as_request : Result ProtocolError HttpRequest → Result ProtocolError HttpMessage
as_request (err e) = err e
as_request (ok req) = ok (request req)

abbrev as_response : Result ProtocolError ℕ → Result ProtocolError HttpMessage
as_response (err e) = err e
as_response (ok res) = ok (response res)

unfoldable pub http_of :
    RequestId → Result ProtocolError HttpMessage → Result ProtocolError ProtoMessage
http_of id (err e) = err e
http_of id (ok m) = ok (http id m)

unfoldable pub of_web_socket : WebSocketMessage → ProtobufWs
of_web_socket (text n) = text_field n
of_web_socket (binary n) = binary_field n
of_web_socket (ping n) = ping_field n
of_web_socket (pong n) = pong_field n
of_web_socket (close code reason) = close_field code (reason_text reason)

module _ (codec : Codec) where
  unfoldable pub http_message_of : Scheme → Option ProtobufHttp → Result ProtocolError HttpMessage
  http_message_of scheme none = err empty
  http_message_of scheme (some (request_field n)) = as_request (codec.read_request scheme n)
  http_message_of scheme (some (response_field n)) = as_response (codec.read_response n)

  -- the id is checked before the message
  unfoldable pub http_with_scheme :
      Scheme
      → Option ProtobufHttp
      → Result ProtocolError RequestId
      → Result ProtocolError ProtoMessage
  http_with_scheme scheme m (err e) = err e
  http_with_scheme scheme m (ok id) = http_of id (http_message_of scheme m)

  -- `TryFrom<proto::Message> for ProtoMessage`
  unfoldable pub message_of : Option Protocol → Result ProtocolError ProtoMessage
  message_of none = err empty
  message_of (some (http_protocol id m)) = http_with_scheme plain m (id_of id)
  message_of (some (https_protocol id m)) = http_with_scheme tls m (id_of id)
  message_of (some (ws_protocol id none)) = err empty
  message_of (some (ws_protocol id (some m))) = web_socket_of id (ws_message_of m)

  unfoldable pub of_http : HttpMessage → ProtobufHttp
  of_http (request req) = request_field (codec.write_request req)
  of_http (response res) = response_field (codec.write_response res)

  -- `From<ProtoMessage> for ProtobufProtocol`
  unfoldable pub of_message : ProtoMessage → Protocol
  of_message (http id m) = http_protocol id (some (of_http m))
  of_message (web_socket id m) = ws_protocol id (some (of_web_socket m))

-- A frame of the WebSocket of a connection.
pub data Frame : Type 0 where
  text_frame binary_frame ping_frame pong_frame raw_frame : ℕ → Frame
  close_frame : Option (ℕ × Text) → Frame

-- `TryFrom<TungMessage> for WebSocketMessage`
unfoldable pub of_frame : Frame → Result ProtocolError WebSocketMessage
of_frame (text_frame n) = ok (text n)
of_frame (binary_frame n) = ok (binary n)
of_frame (ping_frame n) = ok (ping n)
of_frame (pong_frame n) = ok (pong n)
of_frame (close_frame none) = ok (close 1000 none)
of_frame (close_frame (some (code, reason))) = ok (close code (reason_of reason))
of_frame (raw_frame n) = err wrong_ws_frame

-- `From<WebSocketMessage> for TungMessage`
unfoldable pub to_frame : WebSocketMessage → Frame
to_frame (text n) = text_frame n
to_frame (binary n) = binary_frame n
to_frame (ping n) = ping_frame n
to_frame (pong n) = pong_frame n
to_frame (close code reason) = close_frame (some (code, reason_text reason))
