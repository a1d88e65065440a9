-- ===== src/Forwarder/Collection/Keeps.antt =====
-- What a protocol message does to the connections that are open: collection.rs of
-- edgehog-device-runtime-forwarder.
use edgehog_device_runtime.Base.{
  ℕ, ◌≡◌, refl, ap, ◌∙◌, inl, inr, Bool, true, false, not, Option, none, some, List, [], ◌∷◌, arith,
  Result, ok, err, Bool-cases,
}
use edgehog_device_runtime.Base.Text.{same, same_iff}
use edgehog_device_runtime.Forwarder.{
  RequestId, HttpMessage, request, response, WebSocketMessage, ProtoMessage, http, web_socket,
  is_ws_upgrade, Error, ConnectionHandle, WriteHandle, http_handle, ws_handle, Call, open_http,
  open_ws, poll_tasks, Env, World,
}
use edgehog_device_runtime.Forwarder.Collection.{
  Entries, find, replace, retain, open_task, insert_new, replace_old, reuse, add_entry, try_add,
  add_ws, upgrade_or_request, handle_http, send_message, send_found, handle_ws, remove_terminated,
  dispatch, handle_proto_msg,
}

find-retain :
    (keep : ConnectionHandle → Bool) (id : RequestId) (h : ConnectionHandle) (es : Entries)
    → keep h ≡ true
    → find id es ≡ some h
    → find id (retain keep es) ≡ some h
unfolding find retain
find-retain keep id h [] live e = e
find-retain keep id h ((k, g) ∷ es) live e = ground (arith, find-retain keep id h es live)

find-replace :
    (id new : RequestId) (g : ConnectionHandle) (es : Entries)
    → same new id ≡ false
    → find id (replace new g es) ≡ find id es
unfolding find replace
find-replace id new g [] e = refl
find-replace id new g ((k, old) ∷ es) e = elim (Bool-cases (same k new)) [
  | inl same_key ↦
      let p : same k id ≡ false = ap (λ t. same t id) ((same_iff k new).0 same_key) ∙ e in
      rw (same_key, p) refl
  | inr other ↦ rw (other, find-replace id new g es e) refl
]

-- The connection of an id, in a world.
abbrev pub HasConnection : RequestId → ConnectionHandle → World → Type 0
HasConnection id h w = find id w.connections ≡ some h

insert_new-HasConnection :
    (id new : RequestId) (h : ConnectionHandle) (r : Result Error ConnectionHandle) (w : World)
    → same new id ≡ false
    → HasConnection id h w
    → HasConnection id h (insert_new new (r, w)).1
unfolding insert_new find
insert_new-HasConnection id new h (err e) w other has = has
insert_new-HasConnection id new h (ok g) w other has = rw other has

replace_old-HasConnection :
    (id new : RequestId) (h : ConnectionHandle) (r : Result Error ConnectionHandle) (w : World)
    → same new id ≡ false
    → HasConnection id h w
    → HasConnection id h (replace_old new (r, w)).1
unfolding replace_old
replace_old-HasConnection id new h (err e) w other has = has
replace_old-HasConnection id new h (ok g) w other has =
    find-replace id new g w.connections other ∙ has

module _ (env : Env) where
  -- A task that is not finished, at a history of calls.
  abbrev pub IsLive : ConnectionHandle → List Call → Type 0
  IsLive h calls = env.is_finished calls h.task ≡ false

  reuse-HasConnection :
      (id new : RequestId) (h : ConnectionHandle) (write : WriteHandle) (c : Call) (finished : Bool)
      (w : World)
      → same new id ≡ false
      → HasConnection id h w
      → HasConnection id h (reuse env new (open_task env write c) finished w).1
  unfolding reuse open_task
  reuse-HasConnection id new h write c false w other has = has
  reuse-HasConnection id new h write c true w other has =
      let (r, w') = open_task env write c w in replace_old-HasConnection id new h r w' other has

  add_entry-HasConnection :
      (id new : RequestId) (h : ConnectionHandle) (write : WriteHandle) (c : Call)
      (o : Option ConnectionHandle) (w : World)
      → same new id ≡ false
      → HasConnection id h w
      → HasConnection id h (add_entry env new (open_task env write c) o w).1
  unfolding add_entry open_task
  add_entry-HasConnection id new h write c none w other has =
      let (r, w') = open_task env write c w in insert_new-HasConnection id new h r w' other has
  add_entry-HasConnection id new h write c (some g) w other has =
      reuse-HasConnection id new h write c (env.is_finished w.calls g.task) w other has

  try_add-HasConnection :
      (id new : RequestId) (h : ConnectionHandle) (write : WriteHandle) (c : Call) (w : World)
      → IsLive h w.calls
      → HasConnection id h w
      → HasConnection id h (try_add env new (open_task env write c) w).1
  unfolding try_add add_entry find reuse
  try_add-HasConnection id new h write c w live has = elim (Bool-cases (same new id)) [
    | inl e ↦
        let p : find new w.connections ≡ some h =
          ap (λ t. find t w.connections) ((same_iff new id).0 e) ∙ has in
        rw (p, live) has
    | inr other ↦ add_entry-HasConnection id new h write c (find new w.connections) w other has
  ]

  handle_http-HasConnection :
      (id new : RequestId) (h : ConnectionHandle) (m : HttpMessage) (w : World)
      → IsLive h w.calls
      → HasConnection id h w
      → HasConnection id h (handle_http env new m w).1
  unfolding handle_http add_ws
  handle_http-HasConnection id new h (response r) w live has = has
  handle_http-HasConnection id new h (request req) w live has =
      elim (Bool-cases (is_ws_upgrade req)) [
        | inl e ↦
            rw (e, upgrade_or_request, add_ws)
              (try_add-HasConnection id new h ws_handle (open_ws new req) w live has)
        | inr e ↦
            rw (e, upgrade_or_request)
              (try_add-HasConnection id new h http_handle (open_http new req) w live has)
      ]

  send_message-HasConnection :
      (id : RequestId) (h : ConnectionHandle) (m : WebSocketMessage) (task : ℕ)
      (write : WriteHandle) (w : World)
      → HasConnection id h w
      → HasConnection id h (send_message env m task write w).1
  unfolding send_message
  send_message-HasConnection id h m task http_handle w has = has
  send_message-HasConnection id h m task ws_handle w has = has

  send_found-HasConnection :
      (id to : RequestId) (h : ConnectionHandle) (m : WebSocketMessage)
      (o : Option ConnectionHandle) (w : World)
      → HasConnection id h w
      → HasConnection id h (send_found env to m o w).1
  unfolding send_found
  send_found-HasConnection id to h m none w has = has
  send_found-HasConnection id to h m (some g) w has =
      send_message-HasConnection id h m g.task g.write w has

  dispatch-HasConnection :
      (id : RequestId) (h : ConnectionHandle) (msg : ProtoMessage) (w : World)
      → IsLive h w.calls
      → HasConnection id h w
      → HasConnection id h (dispatch env msg w).1
  unfolding dispatch handle_ws
  dispatch-HasConnection id h (http new m) w live has =
      handle_http-HasConnection id new h m w live has
  dispatch-HasConnection id h (web_socket to m) w live has =
      send_found-HasConnection id to h m (find to w.connections) w has

  -- A connection whose task is not finished when a protocol message is handled stays under its id,
  -- whatever the message is. In particular a request with this id does not replace it.
  pub handle_proto_msg-HasConnection :
      (id : RequestId) (h : ConnectionHandle) (msg : ProtoMessage) (w : World)
      → IsLive h (poll_tasks ∷ w.calls)
      → HasConnection id h w
      → HasConnection id h (handle_proto_msg env msg w).1
  unfolding handle_proto_msg remove_terminated
  handle_proto_msg-HasConnection id h msg w live has =
      dispatch-HasConnection id h msg (remove_terminated env w) live (
        find-retain (λ g. not (env.is_finished (poll_tasks ∷ w.calls) g.task)) id h w.connections
          (ap not live) has)
