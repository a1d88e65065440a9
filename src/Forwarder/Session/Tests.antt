-- ===== src/Forwarder/Session/Tests.antt =====
-- The theorem on a session at a concrete input, and runs of the model.
use edgehog_device_runtime.Base.{◌≡◌, refl, Option, none, some, List, [], ◌∷◌, ok}
use edgehog_device_runtime.Forwarder.Session.{
  connecting, connected, Call, set, unset, connect_ws, handle_ws, reconnect_ws, Report, Env, answer,
  property_of, if_lost, send, dial, recover, serve, connect, finish, hold, handle_session,
}
use edgehog_device_runtime.Forwarder.Session.Reports.{IsSession, handle_session-IsSession}

-- the connection is lost once, in the first round
abbrev lost_once : List Call → Option Report
lost_once (handle_ws ∷ set _ ∷ connect_ws ∷ _) = some 1
lost_once _ = none

abbrev env : Env
env = record { publish = λ _. none; connect = λ _. none; handle = lost_once }

recovers : handle_session env 2 [] ≡ (
  ok tt,
  unset
      ∷ handle_ws
      ∷ set connected
      ∷ reconnect_ws
      ∷ set connecting
      ∷ handle_ws
      ∷ set connected
      ∷ connect_ws
      ∷ set connecting
      ∷ [],
)
unfolding handle_session send property_of answer hold connect dial serve if_lost recover finish
recovers = refl

-- no connection is made
abbrev refused : Env
refused = record env { connect = λ _. some 4 }

unsets_refused : handle_session refused 2 [] ≡ (ok tt, unset ∷ connect_ws ∷ set connecting ∷ [])
unfolding handle_session send property_of answer hold connect dial finish
unsets_refused = refl

handle_session-IsSession_example : IsSession env (handle_session env 2 [])
handle_session-IsSession_example = handle_session-IsSession env 2
