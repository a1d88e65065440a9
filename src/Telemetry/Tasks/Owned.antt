-- ===== src/Telemetry/Tasks/Owned.antt =====
-- Which tasks run: one for each interface that is enabled with a period, and none for the others.
use edgehog_device_runtime.Base.Assoc.{
  get, drop_key, get-put_self, get-put_ne, get-drop_key_self, get-drop_key_ne,
}
use edgehog_device_runtime.Base.{
  ℕ, ◌<◌, ◌==◌, ==_iff, ◌≡◌, refl, sym, ap, ◌∙◌, ◌≢◌, ◌⊎◌, ite, if_neg, true, false, Bool-cases,
  Option, none, some, Option-cases, List, [], ◌∷◌, All, arith, inl, inr,
}
use edgehog_device_runtime.Telemetry.{TelemetryInterface, interface_discrete}
use edgehog_device_runtime.Telemetry.Tasks.{
  Task, TelemetryTasks, no_tasks, drop_token, cancel_token, stop, start_task,
}

abbrev pub get_token : TelemetryInterface → TelemetryTasks → Option ℕ
get_token i s = get interface_discrete i s.tasks

-- the periods of the running tasks of an interface
unfoldable pub periods : TelemetryInterface → List Task → List ℕ
periods i [] = []
periods i (t ∷ ts) = ite (interface_discrete t.interface i) (t.period ∷ periods i ts) (periods i ts)

abbrev Names : TelemetryTasks → Task → Type 0
Names s t = get_token t.interface s ≡ some t.token

-- The map holds the token of every running task, and no token for two interfaces.
pub record IsOwned (s : TelemetryTasks) : Type 0 where
  pub distinct :
      (i j : TelemetryInterface) (k : ℕ) → get_token i s ≡ some k → get_token j s ≡ some k → i ≡ j
  pub below : (i : TelemetryInterface) (k : ℕ) → get_token i s ≡ some k → k < s.made
  pub owned : All (Names s) s.spawned

pub no_tasks-IsOwned : IsOwned no_tasks
unfolding no_tasks get
no_tasks-IsOwned = record { distinct = λ i j k h. cc; below = λ i k h. absurd (cc); owned = tt }

module _ (s : TelemetryTasks) (i : TelemetryInterface) where
  pub periods-nil : (ts : List Task) → get_token i s ≡ none → All (Names s) ts → periods i ts ≡ []
  unfolding periods
  periods-nil [] e h = refl
  periods-nil (t ∷ ts) e h = let named = h.0 in ground (arith, periods-nil ts e h.1)

  module _ (k : ℕ) (e : get_token i s ≡ some k) where
    periods-drop_token_self : (ts : List Task) → All (Names s) ts → periods i (drop_token k ts) ≡ []
    unfolding periods drop_token
    periods-drop_token_self [] h = refl
    periods-drop_token_self (t ∷ ts) h =
        let named = h.0 in ground (arith, periods-drop_token_self ts h.1)

    -- a task without the token of an interface belongs to another one
    other : (t : Task) → Names s t → (t.token == k) ≡ false → i ≢ t.interface
    other t named p q = ground (arith, named, p, q, e)

    stop-Names :
        (t : Task) → Names s t → (t.token == k) ≡ false → Names (cancel_token i (some k) s) t
    unfolding cancel_token
    stop-Names t named p =
        get-drop_key_ne interface_discrete i t.interface s.tasks (other t named p) ∙ named

    drop_token-owned :
        (ts : List Task)
        → All (Names s) ts
        → All (Names (cancel_token i (some k) s)) (drop_token k ts)
    unfolding drop_token
    drop_token-owned [] h = tt
    drop_token-owned (t ∷ ts) h = elim (Bool-cases (t.token == k)) [
      | inl p ↦ rw p (drop_token-owned ts h.1)
      | inr p ↦ rw p (stop-Names t h.0 p, drop_token-owned ts h.1)
    ]

    module _ (own : IsOwned s) where
      holder : (t : Task) → Names s t → (t.token == k) ≡ true → t.interface ≡ i
      holder t named p = own.distinct t.interface i k (named ∙ ap some ((==_iff t.token k).0 p)) e

      periods-drop_token_ne :
          (j : TelemetryInterface) (ts : List Task)
          → i ≢ j
          → All (Names s) ts
          → periods j (drop_token k ts) ≡ periods j ts
      unfolding periods drop_token
      periods-drop_token_ne j [] n h = refl
      periods-drop_token_ne j (t ∷ ts) n h = elim (Bool-cases (t.token == k)) [
        | inl p ↦
            rw (p, if_neg (interface_discrete t.interface j) (λ q. n (sym (holder t h.0 p) ∙ q)))
              (periods-drop_token_ne j ts n h.1)
        | inr p ↦ rw (p, periods-drop_token_ne j ts n h.1) refl
      ]

some_of_get-drop_key :
    (i q : TelemetryInterface) (m : List (TelemetryInterface × ℕ)) (k : ℕ)
    → get interface_discrete q (drop_key interface_discrete i m) ≡ some k
    → get interface_discrete q m ≡ some k
some_of_get-drop_key i q m k h = elim (interface_discrete i q) [
  | yes e ↦ absurd (cc (h, e, get-drop_key_self interface_discrete i m))
  | no n ↦ sym (get-drop_key_ne interface_discrete i q m n) ∙ h
]

cancel_token-IsOwned :
    (s : TelemetryTasks) (i : TelemetryInterface) (k : ℕ)
    → get_token i s ≡ some k
    → IsOwned s
    → IsOwned (cancel_token i (some k) s)
unfolding cancel_token
cancel_token-IsOwned s i k e own = record {
  distinct = λ q r m f g.
      own.distinct q r m (some_of_get-drop_key i q s.tasks m f)
        (some_of_get-drop_key i r s.tasks m g);
  below = λ q m f. own.below q m (some_of_get-drop_key i q s.tasks m f);
  owned = drop_token-owned s i k e s.spawned own.owned;
}

-- `stop` leaves no task of the interface, and the tasks of the others.
pub stop-IsOwned : (i : TelemetryInterface) (s : TelemetryTasks) → IsOwned s → IsOwned (stop i s)
unfolding stop cancel_token
stop-IsOwned i s own = elim (Option-cases (get_token i s)) [
  | inl e ↦ rw e own
  | inr (k, e) ↦ rw e (cancel_token-IsOwned s i k e own)
]

pub periods-stop_self :
    (i : TelemetryInterface) (s : TelemetryTasks) → IsOwned s → periods i (stop i s).spawned ≡ []
unfolding stop cancel_token
periods-stop_self i s own = elim (Option-cases (get_token i s)) [
  | inl e ↦ rw e (periods-nil s i s.spawned e own.owned)
  | inr (k, e) ↦ rw e (periods-drop_token_self s i k e s.spawned own.owned)
]

pub periods-stop_ne :
    (i j : TelemetryInterface) (s : TelemetryTasks)
    → IsOwned s
    → i ≢ j
    → periods j (stop i s).spawned ≡ periods j s.spawned
unfolding stop cancel_token
periods-stop_ne i j s own n = elim (Option-cases (get_token i s)) [
  | inl e ↦ rw e refl
  | inr (k, e) ↦ rw e (periods-drop_token_ne s i k e own j s.spawned n own.owned)
]

pub get_token-stop : (i : TelemetryInterface) (s : TelemetryTasks) → get_token i (stop i s) ≡ none
unfolding stop cancel_token
get_token-stop i s = elim (Option-cases (get_token i s)) [
  | inl e ↦ rw e e
  | inr (k, e) ↦ rw e (get-drop_key_self interface_discrete i s.tasks)
]

module _ (i : TelemetryInterface) (p : ℕ) (s : TelemetryTasks) (free : get_token i s ≡ none) where
  start_task-owned : (ts : List Task) → All (Names s) ts → All (Names (start_task i p s)) ts
  unfolding start_task
  start_task-owned [] h = tt
  start_task-owned (t ∷ ts) h =
      let other : i ≢ t.interface = λ q. cc (h.0, q, free) in
      (
        get-put_ne interface_discrete i t.interface s.made s.tasks other ∙ h.0,
        start_task-owned ts h.1,
      )

  module _ (own : IsOwned s) where
    get-start_task :
        (q : TelemetryInterface) (m : ℕ)
        → get_token q (start_task i p s) ≡ some m
        → ((i ≡ q) × (m ≡ s.made)) ⊎ ((get_token q s ≡ some m) × (m < s.made))
    unfolding start_task
    get-start_task q m h = elim (interface_discrete i q) [
      | yes e ↦ inl (e, ground (arith, h, e, get-put_self interface_discrete i s.made s.tasks))
      | no n ↦
          let old = sym (get-put_ne interface_discrete i q s.made s.tasks n) ∙ h in
          inr (old, own.below q m old)
    ]

    pub start_task-IsOwned : IsOwned (start_task i p s)
    start_task-IsOwned = record {
      distinct = λ q r m f g.
          ground (arith, get-start_task q m f, get-start_task r m g, own.distinct q r m);
      below = λ q m f. unfold start_task in ground (arith, get-start_task q m f);
      owned =
          unfold start_task in
          (get-put_self interface_discrete i s.made s.tasks, start_task-owned s.spawned own.owned);
    }
