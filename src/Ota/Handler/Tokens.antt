-- ===== src/Ota/Handler/Tokens.antt =====
-- Which updates the handler of src/ota/ota_handler.rs cancels, by their tokens.
use edgehog_device_runtime.Base.{
  ℕ, ◌<◌, ◌==◌, ◌≡◌, refl, ◌⊎◌, onto, ◌||◌, Bool, true, false, Option, none, some, List, [], ◌∷◌,
  any, All, All-map, arith, Bool-cases, inl, inr,
}
use edgehog_device_runtime.Ota.Status.{OtaId, OtaId_eq}
use edgehog_device_runtime.Ota.Handler.{
  OtaOperation, update, cancel, new_message, OtaMessage, OtaHandler, start, check_current,
  send_update, handle_update, cancel_current, handle_cancel, dispatch, handle_event, id_of,
}
use edgehog_device_runtime.Ota.Handler.Queue.{Event, request, write_flag, react, run}

-- Some message was sent with this token.
abbrev pub is_sent : List OtaMessage → ℕ → Bool
is_sent queue t = any (λ m. m.cancel == t) queue

abbrev IsSent : List OtaMessage → Option OtaMessage → Type 0
IsSent queue none = Unit
IsSent queue (some m) = is_sent queue m.cancel ≡ true

-- The tokens fall along the queue, whose latest message stands first: no two are the same.
abbrev pub IsDescending : List OtaMessage → Type 0
IsDescending [] = Unit
IsDescending (m ∷ queue) = All (λ x. x.cancel < m.cancel) queue × IsDescending queue

-- The message stands in the queue.
abbrev pub IsIn : OtaMessage → List OtaMessage → Type 0
IsIn m [] = ⊥
IsIn m (x ∷ queue) = (m ≡ x) ⊎ IsIn m queue

abbrev pub IsCurrentIn : List OtaMessage → Option OtaMessage → Type 0
IsCurrentIn queue none = Unit
IsCurrentIn queue (some m) = IsIn m queue

abbrev pub asks : OtaOperation → OtaId → OtaId → Bool
asks update sent asked = false
asks cancel sent asked = OtaId_eq sent asked

-- Among the events is a request to cancel the update with this id.
abbrev pub is_asked : List Event → OtaId → Bool
is_asked [] id = false
is_asked (request r ∷ es) id = asks r.operation id (id_of r) || is_asked es id
is_asked (write_flag b ∷ es) id = is_asked es id

-- The token is that of a message in the queue whose update was to be cancelled.
abbrev pub IsAsked : List Event → List OtaMessage → ℕ → Type 0
IsAsked past queue t =
    (m : OtaMessage) × IsIn m queue × (m.cancel ≡ t) × (is_asked past m.ota_id ≡ true)

pub record Consistent (past : List Event) (queue : List OtaMessage) (current : Option OtaMessage)
    (cancelled : List ℕ) (next_token : ℕ) : Type 0 where
  pub fresh : All (λ m. m.cancel < next_token) queue
  pub descending : IsDescending queue
  pub current_sent : IsSent queue current
  pub cancelled_sent : All (λ t. is_sent queue t ≡ true) cancelled
  pub current_in : IsCurrentIn queue current
  pub cancelled_asked : All (IsAsked past queue) cancelled

-- with the events so far, the latest first
abbrev pub IsConsistent : List Event → OtaHandler → Type 0
IsConsistent past s = Consistent past s.queue s.current s.cancelled s.next_token

still_sent :
    (m : OtaMessage) (queue : List OtaMessage) (t : ℕ)
    → is_sent queue t ≡ true
    → is_sent (m ∷ queue) t ≡ true
still_sent m queue t h = ground arith

later :
    (e : Event) (past : List Event) (id : OtaId)
    → is_asked past id ≡ true
    → is_asked (e ∷ past) id ≡ true
later (request r) past id h = ground arith
later (write_flag b) past id h = h

later-IsConsistent :
    (e : Event) (past : List Event) (s : OtaHandler)
    → IsConsistent past s
    → IsConsistent (e ∷ past) s
later-IsConsistent e past s c = record {
  fresh = c.fresh;
  descending = c.descending;
  current_sent = c.current_sent;
  cancelled_sent = c.cancelled_sent;
  current_in = c.current_in;
  cancelled_asked =
      All-map _ _ s.cancelled
        (λ t (m, there, same, asked). (m, there, same, later e past m.ota_id asked))
        c.cancelled_asked;
}

module _ (past : List Event) where
  forget : (s : OtaHandler) → IsConsistent past s → IsConsistent past (record s { current = none })
  forget s c = record {
    fresh = c.fresh;
    descending = c.descending;
    current_sent = tt;
    cancelled_sent = c.cancelled_sent;
    current_in = tt;
    cancelled_asked = c.cancelled_asked;
  }

  check_current-IsConsistent :
      (o : Option OtaMessage) (s : OtaHandler) (id : OtaId)
      → IsConsistent past s
      → IsConsistent past (check_current o s id).1
  unfolding check_current
  check_current-IsConsistent none s id c = c
  check_current-IsConsistent (some m) s id c = elim (Bool-cases s.flag) [
    | inr over ↦ simp over (forget s c)
    | inl busy ↦ elim (Bool-cases (OtaId_eq m.ota_id id)) [
      | inl same ↦ simp (busy, same) c
      | inr other ↦ simp (busy, other) c
    ]
  ]

  send_update-IsConsistent :
      (s : OtaHandler) (id : OtaId) → IsConsistent past s → IsConsistent past (send_update s id).0
  unfolding send_update
  send_update-IsConsistent s id c = elim (Bool-cases s.receiver_dropped) [
    | inl gone ↦ simp gone (record {
      fresh = All-map _ _ s.queue (λ m lt. omega arith) c.fresh;
      descending = c.descending;
      current_sent = c.current_sent;
      cancelled_sent = c.cancelled_sent;
      current_in = c.current_in;
      cancelled_asked = c.cancelled_asked;
    })
    | inr there ↦ simp there (record {
      fresh = (omega arith, All-map _ _ s.queue (λ m lt. omega arith) c.fresh);
      descending = (c.fresh, c.descending);
      current_sent = ground arith;
      cancelled_sent =
          All-map _ _ s.cancelled (λ t h. still_sent (new_message s id) s.queue t h)
            c.cancelled_sent;
      current_in = inl refl;
      cancelled_asked =
          All-map _ _ s.cancelled (λ t (m, there, same, asked). (m, inr there, same, asked))
            c.cancelled_asked;
    })
  ]

  handle_update-IsConsistent :
      (s : OtaHandler) (id : OtaId) → IsConsistent past s → IsConsistent past (handle_update s id).0
  unfolding handle_update
  handle_update-IsConsistent s id c =
      grind (arith, check_current-IsConsistent, send_update-IsConsistent)

  cancel_current-IsConsistent :
      (o : Option OtaMessage) (s : OtaHandler) (id : OtaId)
      → IsSent s.queue o
      → IsCurrentIn s.queue o
      → ((x : OtaId) → OtaId_eq x id ≡ true → is_asked past x ≡ true)
      → IsConsistent past s
      → IsConsistent past (cancel_current o s id)
  unfolding cancel_current
  cancel_current-IsConsistent none s id h there asked c = c
  cancel_current-IsConsistent (some m) s id h there asked c =
      elim (Bool-cases (OtaId_eq m.ota_id id)) [
        | inr other ↦ simp other c
        | inl same ↦ simp same (record {
          fresh = c.fresh;
          descending = c.descending;
          current_sent = tt;
          cancelled_sent = (h, c.cancelled_sent);
          current_in = tt;
          cancelled_asked = ((m, there, refl, asked m.ota_id same), c.cancelled_asked);
        })
      ]

  dispatch-IsConsistent :
      (op : OtaOperation) (s : OtaHandler) (id : OtaId)
      → ((x : OtaId) → asks op x id ≡ true → is_asked past x ≡ true)
      → IsConsistent past s
      → IsConsistent past (dispatch op s id).0
  unfolding dispatch handle_cancel
  dispatch-IsConsistent update s id asked c = handle_update-IsConsistent s id c
  dispatch-IsConsistent cancel s id asked c =
      cancel_current-IsConsistent s.current s id c.current_sent c.current_in asked c

react-IsConsistent :
    (past : List Event) (s : OtaHandler) (e : Event)
    → IsConsistent past s
    → IsConsistent (e ∷ past) (react s e)
unfolding react handle_event
react-IsConsistent past s (request r) c =
    dispatch-IsConsistent (request r ∷ past) r.operation s (id_of r) (λ x h. rw h refl)
      (later-IsConsistent (request r) past s c)
react-IsConsistent past s (write_flag b) c = later-IsConsistent (write_flag b) past s c

run-IsConsistent :
    (past : List Event) (s : OtaHandler) (es : List Event)
    → IsConsistent past s
    → IsConsistent (onto es past) (run s es)
unfolding run
run-IsConsistent past s [] c = c
run-IsConsistent past s (e ∷ es) c =
    run-IsConsistent (e ∷ past) (react s e) es (react-IsConsistent past s e c)

-- Whatever comes in, every cancelled token is that of a message in the queue for whose update a
-- cancellation was requested, no two messages in the queue share a token, and the token of the next
-- message is new.
pub run-start-IsConsistent : (es : List Event) → IsConsistent (onto es []) (run start es)
run-start-IsConsistent es = run-IsConsistent [] start es (record {
  fresh = tt;
  descending = tt;
  current_sent = tt;
  cancelled_sent = tt;
  current_in = tt;
  cancelled_asked = tt;
})
