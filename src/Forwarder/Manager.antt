-- ===== src/Forwarder/Manager.antt =====
-- The connections manager: `handle_connections`, `event_loop`, `handle_tung_msg` and `send_to_ws` of
-- edgehog-device-runtime-forwarder/src/connections_manager.rs. What `select_ws_event` returns, round by
-- round, is a list of events.
pub mod Channels
mod Tests
use edgehog_device_runtime.Base.{ℕ, Option, none, some, List, [], ◌∷◌, Result, ok, err}
use edgehog_device_runtime.Base.State.{Stateful, give}
use edgehog_device_runtime.Forwarder.{
  ProtoMessage, TungMessage, ping_frame, pong_frame, text_frame, binary_frame, other_frame,
  close_frame, TungError, connection_closed, already_closed, capacity, broken, Error, waits, Report,
  send_frame, Env, World,
}
use edgehog_device_runtime.Forwarder.Collection.{record_call, disconnect, handle_proto_msg}

-- With `stuck` for a round that does not end, since a send to a task waits for ever.
pub data ControlFlow : Type 0 where
  continue break stuck : ControlFlow

-- `WebSocketEvents`, or the token is cancelled
pub data Event : Type 0 where
  cancelled : Event
  receive : Result TungError TungMessage → Event
  send : ProtoMessage → Event

abbrev pub Step : Type 0
Step = Stateful World TungError ControlFlow

-- What is left of the loop: `none` if it waits for another event, or for ever.
abbrev pub Loop : Type 0
Loop = Option (Result Report (Unit {0})) × World

abbrev flow : Option (Option TungError) → Result TungError ControlFlow
flow none = ok break
flow (some none) = ok continue
flow (some (some e)) = err e

-- the end of the loop by an error
unfoldable pub ended : TungError → Result Report (Unit {0})
ended connection_closed = ok tt
ended capacity = ok tt
ended already_closed = ok tt
ended (broken e) = err e

unfoldable pub after : Result TungError ControlFlow → World → Loop → Loop
after (ok continue) w rest = rest
after (ok stuck) w rest = (none, w)
after (ok break) w rest = (some (ok tt), w)
after (err e) w rest = (some (ended e), w)

-- an error of the message is only logged
unfoldable pub logged : Result Error (Unit {0}) × World → Result TungError ControlFlow × World
logged (err waits, w) = (ok stuck, w)
logged (_, w) = (ok continue, w)

module _ (env : Env) where
  unfoldable pub send_to_ws : TungMessage → Step
  send_to_ws m w = let w' = record_call (send_frame m) w in (flow (env.send w'.calls), w')

  unfoldable pub handle_binary : Option ProtoMessage → Step
  handle_binary none w = (ok continue, w)
  handle_binary (some msg) w = logged (handle_proto_msg env msg w)

  unfoldable pub handle_tung_msg : TungMessage → Step
  handle_tung_msg (ping_frame bytes) w = send_to_ws (pong_frame bytes) w
  handle_tung_msg (pong_frame _) w = (ok continue, w)
  handle_tung_msg close_frame w = (ok break, disconnect w)
  handle_tung_msg (text_frame _) w = (ok continue, w)
  handle_tung_msg (binary_frame bytes) w = handle_binary (env.decode bytes) w
  handle_tung_msg (other_frame _) w = (ok continue, w)

  unfoldable pub send_encoded : Option ℕ → Step
  send_encoded none = give continue
  send_encoded (some bytes) = send_to_ws (binary_frame bytes)

  unfoldable pub event_loop : Event → Step
  event_loop cancelled w = (ok break, w)
  event_loop (receive (err e)) w = (err e, w)
  event_loop (receive (ok m)) w = handle_tung_msg m w
  event_loop (send msg) w = send_encoded (env.encode msg) w

  unfoldable pub handle_connections : List Event → World → Loop
  handle_connections [] w = (none, w)
  handle_connections (e ∷ es) w =
      let (r, w') = event_loop e w in after r w' (handle_connections es w')
