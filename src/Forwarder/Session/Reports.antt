-- ===== src/Forwarder/Session/Reports.antt =====
-- What a session of src/forwarder.rs reports of itself, call by call.
use edgehog_device_runtime.Base.{
  ℕ, zero, suc, ◌≡◌, refl, ◌⊎◌, inl, inr, Option, none, some, List, [], ◌∷◌, Result, ok, err,
}
use edgehog_device_runtime.Base.State.{Holds, and_then-Holds, ◌>>◌, and_then}
use edgehog_device_runtime.Forwarder.Session.{
  SessionStatus, connecting, connected, Call, set, unset, connect_ws, handle_ws, reconnect_ws,
  Report, Env, Stop, running, failed, Run, answer, property_of, if_lost, send, dial, recover, serve,
  connect, finish, hold, handle_session,
}

module _ (env : Env) where
  -- The latest call set this status, without an error.
  abbrev pub HasSet : SessionStatus → List Call → Type 0
  HasSet status [] = ⊥
  HasSet status (c ∷ calls) = (c ≡ set status) × (env.publish (c ∷ calls) ≡ none)

  -- The latest call made a connection, without an error.
  abbrev pub HasDialled : List Call → Type 0
  HasDialled [] = ⊥
  HasDialled (c ∷ calls) =
      ((c ≡ connect_ws) ⊎ (c ≡ reconnect_ws)) × (env.connect (c ∷ calls) ≡ none)

  -- The calls that a call follows: a connection is made where `Connecting` is reported, `Connected` is
  -- reported of a connection that is made, and connections are handled where `Connected` is reported.
  abbrev pub IsReported : Call → List Call → Type 0
  IsReported connect_ws calls = HasSet connecting calls
  IsReported reconnect_ws calls = HasSet connecting calls
  IsReported (set connected) calls = HasDialled calls
  IsReported handle_ws calls = HasSet connected calls
  IsReported (set _) calls = Unit
  IsReported unset calls = Unit

  abbrev pub AllReported : List Call → Type 0
  AllReported [] = Unit
  AllReported (c ∷ calls) = IsReported c calls × AllReported calls

  -- the calls after code, and what its result says of the latest
  abbrev After : (List Call → Type 0) → Result Stop (Unit {0}) × List Call → Type 0
  After P = Holds (λ _ calls. AllReported calls × P calls) (λ _ calls. AllReported calls)

  answer-After :
      (P : List Call → Type 0) (o : Option Report) (calls : List Call)
      → AllReported calls
      → (o ≡ none → P calls)
      → After P (answer o, calls)
  unfolding answer
  answer-After P none calls all h = (all, h refl)
  answer-After P (some e) calls all h = all

  bind-After :
      (P Q : List Call → Type 0) (next : Run) (r : Result Stop (Unit {0})) (calls : List Call)
      → After P (r, calls)
      → ((calls' : List Call) → AllReported calls' → P calls' → After Q (next calls'))
      → After Q (and_then r (λ _. next) calls)
  bind-After P Q next r calls holds h =
      and_then-Holds (λ _ calls. AllReported calls × P calls)
        (λ _ calls. AllReported calls × Q calls) (λ _ calls. AllReported calls) (λ _. next) r calls
        holds (λ _ calls' (all, p). h calls' all p)

  send_connecting-After :
      (calls : List Call)
      → AllReported calls
      → After (HasSet connecting) (send env connecting calls)
  unfolding send property_of
  send_connecting-After calls all =
      answer-After (HasSet connecting) (env.publish (set connecting ∷ calls))
        (set connecting ∷ calls) (tt, all) (λ e. (refl, e))

  send_connected-After :
      (calls : List Call)
      → AllReported calls
      → HasDialled calls
      → After (HasSet connected) (send env connected calls)
  unfolding send property_of
  send_connected-After calls all dialled =
      answer-After (HasSet connected) (env.publish (set connected ∷ calls)) (set connected ∷ calls)
        (dialled, all) (λ e. (refl, e))

  dial_connect-After :
      (calls : List Call)
      → AllReported calls
      → HasSet connecting calls
      → After HasDialled (dial env connect_ws calls)
  unfolding dial
  dial_connect-After calls all h =
      answer-After HasDialled (env.connect (connect_ws ∷ calls)) (connect_ws ∷ calls) (h, all)
        (λ e. (inl refl, e))

  dial_reconnect-After :
      (calls : List Call)
      → AllReported calls
      → HasSet connecting calls
      → After HasDialled (dial env reconnect_ws calls)
  unfolding dial
  dial_reconnect-After calls all h =
      answer-After HasDialled (env.connect (reconnect_ws ∷ calls)) (reconnect_ws ∷ calls) (h, all)
        (λ e. (inr refl, e))

  recover-After :
      (calls : List Call) → AllReported calls → After (HasSet connected) (recover env calls)
  unfolding recover
  recover-After calls all =
      let (r, c) = send env connecting calls in
      bind-After (HasSet connecting) (HasSet connected)
        (dial env reconnect_ws >> send env connected) r c (send_connecting-After calls all)
        (λ c all h.
          let (r', c') = dial env reconnect_ws c in
          bind-After HasDialled (HasSet connected) (send env connected) r' c'
            (dial_reconnect-After c all h) send_connected-After)

  -- where nothing is said of the latest call
  abbrev Anything : List Call → Type 0
  Anything calls = Unit

  if_lost-After :
      (o : Option Report) (again : Run) (calls : List Call)
      → AllReported calls
      → After Anything (again calls)
      → After Anything (if_lost o again calls)
  unfolding if_lost
  if_lost-After none again calls all h = (all, tt)
  if_lost-After (some e) again calls all h = h

  serve-After :
      (fuel : ℕ) (calls : List Call)
      → AllReported calls
      → HasSet connected calls
      → After Anything (serve env fuel calls)
  unfolding serve
  serve-After zero calls all h = all
  serve-After (suc fuel) calls all h =
      let calls' = handle_ws ∷ calls in
      let all' : AllReported calls' = (h, all) in
      let (r, c) = recover env calls' in
      if_lost-After (env.handle calls') (recover env >> serve env fuel) calls' all' (
        bind-After (HasSet connected) Anything (serve env fuel) r c (recover-After calls' all')
          (serve-After fuel))

  connect-After :
      (fuel : ℕ) (calls : List Call)
      → AllReported calls
      → HasSet connecting calls
      → After Anything (connect env fuel calls)
  unfolding connect
  connect-After fuel calls all h =
      let (r, c) = dial env connect_ws calls in
      bind-After HasDialled Anything (send env connected >> serve env fuel) r c
        (dial_connect-After calls all h)
        (λ c all h.
          let (r', c') = send env connected c in
          bind-After (HasSet connected) Anything (serve env fuel) r' c'
            (send_connected-After c all h) (serve-After fuel))

  -- What a session that is over did last: it unset its property. A session whose loop goes on, in a
  -- round that is not among the ones counted, has no end.
  abbrev pub Ends : Result Stop (Unit {0}) × List Call → Type 0
  Ends (err running, calls) = Unit
  Ends (ok _, []) = ⊥
  Ends (ok _, c ∷ calls) = (c ≡ unset) × (env.publish (c ∷ calls) ≡ none)
  Ends (err (failed e), []) = ⊥
  Ends (err (failed e), c ∷ calls) =
      ((c ≡ unset) ⊎ (calls ≡ [])) × (env.publish (c ∷ calls) ≡ some e)

  -- Every call was reported, and the session ends as it should.
  abbrev pub IsSession : Result Stop (Unit {0}) × List Call → Type 0
  IsSession (r, calls) = AllReported calls × Ends (r, calls)

  disconnected-IsSession :
      (o : Option Report) (calls : List Call)
      → env.publish (unset ∷ calls) ≡ o
      → AllReported calls
      → IsSession (answer o, unset ∷ calls)
  unfolding answer
  disconnected-IsSession none calls e all = ((tt, all), (refl, e))
  disconnected-IsSession (some x) calls e all = ((tt, all), (inl refl, e))

  finish-IsSession :
      (r : Result Stop (Unit {0})) (calls : List Call)
      → After Anything (r, calls)
      → IsSession (finish env r calls)
  unfolding finish send property_of
  finish-IsSession (err running) calls all = (all, tt)
  finish-IsSession (err (failed e)) calls all =
      disconnected-IsSession (env.publish (unset ∷ calls)) calls refl all
  finish-IsSession (ok _) calls (all, _) =
      disconnected-IsSession (env.publish (unset ∷ calls)) calls refl all

  start-IsSession :
      (fuel : ℕ) (o : Option Report)
      → env.publish (set connecting ∷ []) ≡ o
      → IsSession (and_then (answer o) (λ _. hold env fuel) (set connecting ∷ []))
  unfolding answer hold
  start-IsSession fuel none e =
      let (r, c) = connect env fuel (set connecting ∷ []) in
      finish-IsSession r c (connect-After fuel (set connecting ∷ []) (tt, tt) (refl, e))
  start-IsSession fuel (some x) e = ((tt, tt), (inr refl, e))

  -- A session reports itself truly, for as many rounds as it has: a connection is made only where
  -- `Connecting` was published just before, `Connected` is published only of a connection that was
  -- just made, and connections are handled only after that. A session that ends has tried to unset its
  -- property as its last call, but where its first publication failed. It fails only by an error of
  -- that last call.
  pub handle_session-IsSession : (fuel : ℕ) → IsSession (handle_session env fuel [])
  unfolding handle_session send property_of
  handle_session-IsSession fuel = start-IsSession fuel (env.publish (set connecting ∷ [])) refl
