-- ===== src/Forwarder/Messages/Tests.antt =====
-- The theorem on the forwarder's messages at a concrete input, and runs of the model.
use edgehog_device_runtime.Base.{◌≡◌, ◌≢◌, arith, refl, none, some, [], ◌∷◌, ok, err}
use edgehog_device_runtime.Base.Text.{Text}
use edgehog_device_runtime.Forwarder.{RequestId, close, web_socket}
use edgehog_device_runtime.Forwarder.Messages.{
  Codec, invalid_port_number, ws_protocol, close_field, id_of, reason_of, ws_message_of,
  web_socket_of, message_of, of_message, of_frame, to_frame,
}
use edgehog_device_runtime.Forwarder.Messages.RoundTrip.{message_of-of_message}

abbrev id : RequestId
id = 4 ∷ 2 ∷ []

-- A codec that keeps the fields of requests without the header `Upgrade`.
abbrev codec : Codec
codec = record {
  read_request = λ scheme n. ok (record { scheme = scheme; upgrade = []; fields = n });
  write_request = λ req. req.fields;
  read_response = λ n. ok n;
  write_response = λ n. n;
}

-- a close code that is no `u16`
refuses_code :
    message_of codec (some (ws_protocol id (some (close_field 65536 [])))) ≡ err invalid_port_number
unfolding message_of ws_message_of web_socket_of
refuses_code = refl

-- an empty reason is none
no_reason :
    message_of codec (some (ws_protocol id (some (close_field 1000 []))))
    ≡ ok (web_socket id (close 1000 none))
unfolding message_of ws_message_of web_socket_of reason_of id_of
no_reason = refl

id-ne-nil : id ≢ []
id-ne-nil e = cc

abbrev bye : Text
bye = 7 ∷ []

reason-ne-nil : bye ≢ []
reason-ne-nil e = cc

message_of-of_message_example :
    (message_of codec (some (of_message codec (web_socket id (close 1000 (some bye)))))
      ≡ ok (web_socket id (close 1000 (some bye))))
    × (of_frame (to_frame (close 1000 (some bye))) ≡ ok (close 1000 (some bye)))
message_of-of_message_example =
    message_of-of_message codec id (close 1000 (some bye)) id-ne-nil (omega arith, reason-ne-nil)
