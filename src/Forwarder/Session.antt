-- ===== src/Forwarder/Session.antt =====
-- A session of the forwarder: `handle_session` and `connect` of src/forwarder.rs. A session is a
-- function of the calls made so far, the latest first.
pub mod Reports
mod Tests
use edgehog_device_runtime.Base.{ℕ, zero, suc, Option, none, some, List, ◌∷◌, Result, ok, err}
use edgehog_device_runtime.Base.State.{Stateful, ◌>>=◌, ◌>>◌}

pub data SessionStatus : Type 0 where
  connecting connected disconnected : SessionStatus

-- The property of the session is set to a status, or unset.
pub data Call : Type 0 where
  set : SessionStatus → Call
  unset connect_ws handle_ws reconnect_ws : Call

-- an error of a library, as an opaque number
abbrev pub Report : Type 0
Report = ℕ

-- A connection is made by `ConnectionsManager::connect` or `reconnect`, and handled by
-- `handle_connections`.
pub record Env : Type 0 where
  pub publish : List Call → Option Report
  pub connect : List Call → Option Report
  pub handle : List Call → Option Report

-- Why there is no result: the fuel of the loop has run out, or an error.
pub data Stop : Type 0 where
  running : Stop
  failed : Report → Stop

abbrev pub Run : Type 0
Run = Stateful (List Call) Stop (Unit {0})

unfoldable pub answer : Option Report → Result Stop (Unit {0})
answer none = ok tt
answer (some e) = err (failed e)

-- `From<SessionState> for Option<AstarteData>`, and the property that is set or unset
unfoldable pub property_of : SessionStatus → Call
property_of connecting = set connecting
property_of connected = set connected
property_of disconnected = unset

-- the loop's next round, if the connection was lost
unfoldable pub if_lost : Option Report → Run → Run
if_lost none again calls = (ok tt, calls)
if_lost (some e) again calls = again calls

module _ (env : Env) where
  -- `SessionState::send`
  unfoldable pub send : SessionStatus → Run
  send status calls =
      let calls' = property_of status ∷ calls in (answer (env.publish calls'), calls')

  unfoldable pub dial : Call → Run
  dial c calls = let calls' = c ∷ calls in (answer (env.connect calls'), calls')

  unfoldable pub recover : Run
  recover = do send connecting; dial reconnect_ws; send connected

  -- `while let Err(Disconnected(err)) = …`
  unfoldable pub serve : ℕ → Run
  serve zero calls = (err running, calls)
  serve (suc fuel) calls =
      let calls' = handle_ws ∷ calls in if_lost (env.handle calls') (recover >> serve fuel) calls'

  unfoldable pub connect : ℕ → Run
  connect fuel = do dial connect_ws; send connected; serve fuel

  -- an error of the connection is only logged
  unfoldable pub finish : Result Stop (Unit {0}) → Run
  finish (err running) calls = (err running, calls)
  finish (err (failed e)) calls = send disconnected calls
  finish (ok _) calls = send disconnected calls

  unfoldable pub hold : ℕ → Run
  hold fuel calls = let (r, calls') = connect fuel calls in finish r calls'

  unfoldable pub handle_session : ℕ → Run
  handle_session fuel = do send connecting; hold fuel
