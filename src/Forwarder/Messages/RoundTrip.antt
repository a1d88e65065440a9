-- ===== src/Forwarder/Messages/RoundTrip.antt =====
-- The conversions of edgehog-device-runtime-forwarder/src/messages.rs, there and back.
use edgehog_device_runtime.Base.{
  ◌<◌, ltb, ◌≡◌, ◌≢◌, refl, arith, true, Option, none, some, [], ◌∷◌, ok,
}
use edgehog_device_runtime.Base.Text.{Text}
use edgehog_device_runtime.Forwarder.{
  RequestId, WebSocketMessage, text, binary, ping, pong, close, web_socket,
}
use edgehog_device_runtime.Forwarder.Messages.{
  Codec, id_of, reason_of, reason_text, ws_message_of, web_socket_of, message_of, of_web_socket,
  of_message, of_frame, to_frame,
}

-- A close code is a `u16`, and a reason is not empty.
abbrev pub IsReason : Option Text → Type 0
IsReason none = Unit
IsReason (some reason) = reason ≢ []

abbrev pub IsWebSocket : WebSocketMessage → Type 0
IsWebSocket (close code reason) = (code < 65536) × IsReason reason
IsWebSocket _ = Unit

id_back : (id : RequestId) → id ≢ [] → id_of id ≡ ok id
unfolding id_of
id_back [] h = absurd (h refl)
id_back (c ∷ cs) h = refl

reason_back : (reason : Option Text) → IsReason reason → reason_of (reason_text reason) ≡ reason
unfolding reason_of reason_text
reason_back none h = refl
reason_back (some []) h = absurd (h refl)
reason_back (some (c ∷ cs)) h = refl

web_socket_back : (m : WebSocketMessage) → IsWebSocket m → ws_message_of (of_web_socket m) ≡ ok m
unfolding ws_message_of of_web_socket
web_socket_back (text n) h = refl
web_socket_back (binary n) h = refl
web_socket_back (ping n) h = refl
web_socket_back (pong n) h = refl
web_socket_back (close code reason) (l, h) =
    let e : ltb code 65536 ≡ true = ground (arith, l) in rw (e, reason_back reason h) refl

-- A message that is converted to a frame and back is the same.
frame_back : (m : WebSocketMessage) → IsWebSocket m → of_frame (to_frame m) ≡ ok m
unfolding of_frame to_frame
frame_back (text n) h = refl
frame_back (binary n) h = refl
frame_back (ping n) h = refl
frame_back (pong n) h = refl
frame_back (close code reason) (l, h) = rw (reason_back reason h) refl

-- A WebSocket message that is converted to a protobuf message and back is the same under the same id,
-- and so is one that is converted to a frame and back. The id and the reason of a close message must
-- not be empty, and the code must be a `u16`.
pub message_of-of_message :
    (codec : Codec) (id : RequestId) (m : WebSocketMessage)
    → id ≢ []
    → IsWebSocket m
    → (message_of codec (some (of_message codec (web_socket id m))) ≡ ok (web_socket id m))
      × (of_frame (to_frame m) ≡ ok m)
unfolding message_of of_message web_socket_of
message_of-of_message codec id m h k = (rw (web_socket_back m k, id_back id h) refl, frame_back m k)
