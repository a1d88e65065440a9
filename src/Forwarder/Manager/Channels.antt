-- ===== src/Forwarder/Manager/Channels.antt =====
-- The two bounded channels between the connections manager and the task of a WebSocket connection, in
-- edgehog-device-runtime-forwarder/src: `CHANNEL_SIZE` of connections_manager.rs for the messages to the
-- manager, `WS_CHANNEL_SIZE` of connection/mod.rs for those to the task. `handle_ws` of collection.rs and
-- `Connection::task` of connection/mod.rs wait while the channel that they send to is full.
use edgehog_device_runtime.Base.{ℕ, zero, suc, ◌≤◌, ◌<◌, ◌≡◌, refl, arith}

abbrev pub channel_size : ℕ
channel_size = 50

abbrev pub ws_channel_size : ℕ
ws_channel_size = 50

-- in `select!`, or in a send that is awaited
pub data Activity : Type 0 where
  selecting sending : Activity

-- The two sides, and the messages in the channels to each.
pub record Link : Type 0 where
  pub manager : Activity
  pub task : Activity
  pub to_manager : ℕ
  pub to_task : ℕ

module _ (size ws_size : ℕ) where
  -- A frame from Edgehog is received by the manager and then sent to the task, which writes it to its
  -- WebSocket. A frame that the task reads there is sent to the manager, which forwards it to Edgehog.
  -- The cancellation of the manager is only awaited in `select!` and with a frame to Edgehog.
  pub data Step : Link → Link → Type 0 where
    receives :
        {t : Activity} {a b : ℕ}
        → Step
            (record { manager = selecting; task = t; to_manager = a; to_task = b })
            (record { manager = sending; task = t; to_manager = a; to_task = b })
    delivers :
        {t : Activity} {a b : ℕ}
        → b < ws_size
        → Step
            (record { manager = sending; task = t; to_manager = a; to_task = b })
            (record { manager = selecting; task = t; to_manager = a; to_task = suc b })
    forwards :
        {t : Activity} {a b : ℕ}
        → Step
            (record { manager = selecting; task = t; to_manager = suc a; to_task = b })
            (record { manager = selecting; task = t; to_manager = a; to_task = b })
    reads :
        {m : Activity} {a b : ℕ}
        → Step
            (record { manager = m; task = selecting; to_manager = a; to_task = b })
            (record { manager = m; task = sending; to_manager = a; to_task = b })
    reports :
        {m : Activity} {a b : ℕ}
        → a < size
        → Step
            (record { manager = m; task = sending; to_manager = a; to_task = b })
            (record { manager = m; task = selecting; to_manager = suc a; to_task = b })
    writes :
        {m : Activity} {a b : ℕ}
        → Step
            (record { manager = m; task = selecting; to_manager = a; to_task = suc b })
            (record { manager = m; task = selecting; to_manager = a; to_task = b })

  pub data Steps (s : Link) : Link → Type 0 where
    start : Steps s s
    then : {t u : Link} → Steps s t → Step t u → Steps s u

abbrev pub initial : Link
initial = record { manager = selecting; task = selecting; to_manager = 0; to_task = 0 }

-- both channels are full, and both sides wait
abbrev pub jam : ℕ → ℕ → Link
jam size ws_size = record {
  manager = sending;
  task = sending;
  to_manager = size;
  to_task = ws_size;
}

abbrev idle_with : ℕ → ℕ → Link
idle_with a b = record { manager = selecting; task = selecting; to_manager = a; to_task = b }

module _ (size ws_size : ℕ) where
  fill_manager : (a : ℕ) → a ≤ size → Steps size ws_size initial (idle_with a 0)
  fill_manager zero l = start
  fill_manager (suc a) l =
      then (then (fill_manager a (omega (arith, l))) reads) (reports (omega (arith, l)))

  fill_task : (b : ℕ) → b ≤ ws_size → Steps size ws_size initial (idle_with size b)
  fill_task zero l = fill_manager size (omega arith)
  fill_task (suc b) l =
      then (then (fill_task b (omega (arith, l))) receives) (delivers (omega (arith, l)))

  -- Both sides wait, for channels that are full.
  abbrev IsStuck : Link → Type 0
  IsStuck s =
      (s.manager ≡ sending) × (s.task ≡ sending) × (s.to_manager ≡ size) × (s.to_task ≡ ws_size)

  stuck : {s t : Link} → Step size ws_size s t → IsStuck s → ⊥
  stuck receives (m, t, a, b) = cc
  stuck (delivers l) (m, t, a, b) = omega (arith, l, b)
  stuck forwards (m, t, a, b) = cc
  stuck reads (m, t, a, b) = cc
  stuck (reports l) (m, t, a, b) = omega (arith, l, a)
  stuck writes (m, t, a, b) = cc

  -- Whatever the sizes of the channels, the two sides can come to wait for each other: a link is
  -- reached where both channels are full, both sides are in a send, and no step is possible any more.
  pub jam-Steps :
      Steps size ws_size initial (jam size ws_size)
      × ((s : Link) → Step size ws_size (jam size ws_size) s → ⊥)
  jam-Steps = (
    then (then (fill_task ws_size (omega arith)) receives) reads,
    λ s step. stuck step (refl, refl, refl, refl),
  )
