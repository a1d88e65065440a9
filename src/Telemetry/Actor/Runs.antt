-- ===== src/Telemetry/Actor/Runs.antt =====
-- The running tasks are those that the configuration asks for.
use edgehog_device_runtime.Base.{
  ℕ, ◌≡◌, ◌∙◌, ap, if◌then◌else◌, refl, if_pos, if_neg, Option, none, some, Option-cases, List, [],
  ◌∷◌, arith, inl, inr,
}
use edgehog_device_runtime.Base.Assoc.{get, IsMap, get-put_self, get-put_ne, put-IsMap}
use edgehog_device_runtime.Telemetry.{
  TelemetryInterface, interface_discrete, from_str, TelemetryInterfaceConfig, TaskConfig, Configs,
  get_config,
}
use edgehog_device_runtime.Telemetry.Tasks.{
  Task, TelemetryTasks, Support, for_interface, running_tasks, no_tasks, spawn_task,
}
use edgehog_device_runtime.Telemetry.Tasks.Owned.{periods, IsOwned, no_tasks-IsOwned}
use edgehog_device_runtime.Telemetry.Tasks.Spawns.{
  wanted, spawn_task-IsOwned, periods-spawn_task_self, periods-spawn_task_ne,
}
use edgehog_device_runtime.Telemetry.Actor.{
  TelemetryEvent, FileSystem, Telemetry, collect, apply_saved, restore, merge, spawn_all, read,
  read_filestate, start, initialize, configure, handle, run,
}

abbrev pub IsConfigs : Configs → Type 0
IsConfigs = IsMap interface_discrete

-- no task where an interface has no configuration
abbrev pub wanted_by : Option TaskConfig → List ℕ → List ℕ
wanted_by none ps = ps
wanted_by (some c) ps = wanted c

pub collect-IsMap :
    (cs : List TelemetryInterfaceConfig) (m : Configs) → IsConfigs m → IsConfigs (collect cs m)
unfolding collect
collect-IsMap [] m h = h
collect-IsMap (c ∷ cs) m h = elim (Option-cases (from_str c.interface_name)) [
  | inl e ↦ rw e (collect-IsMap cs m h)
  | inr (i, e) ↦ rw e (collect-IsMap cs _ (put-IsMap interface_discrete i _ m h))
]

restore-IsMap :
    (o : Option TelemetryInterface) (c : TelemetryInterfaceConfig) (m : Configs)
    → IsConfigs m
    → IsConfigs (restore o c m)
restore-IsMap none c m h = h
restore-IsMap (some i) c m h = elim (Option-cases (merge c (get_config i m))) [
  | inl e ↦ rw e h
  | inr (v, e) ↦ rw e (put-IsMap interface_discrete i v m h)
]

pub apply_saved-IsMap :
    (cs : List TelemetryInterfaceConfig) (m : Configs) → IsConfigs m → IsConfigs (apply_saved cs m)
unfolding apply_saved
apply_saved-IsMap [] m h = h
apply_saved-IsMap (c ∷ cs) m h =
    apply_saved-IsMap cs _ (restore-IsMap (from_str c.interface_name) c m h)

spawn_all-IsOwned : (m : Configs) (s : TelemetryTasks) → IsOwned s → IsOwned (spawn_all m s)
unfolding spawn_all
spawn_all-IsOwned [] s own = own
spawn_all-IsOwned ((i, c) ∷ m) s own = spawn_all-IsOwned m _ (spawn_task-IsOwned i c s own)

periods-spawn_all :
    (m : Configs) (s : TelemetryTasks) (i : TelemetryInterface)
    → IsConfigs m
    → IsOwned s
    → periods i (spawn_all m s).spawned ≡ wanted_by (get_config i m) (periods i s.spawned)
unfolding spawn_all get
periods-spawn_all [] s i h own = refl
periods-spawn_all ((j, c) ∷ m) s i h own =
    let rest = periods-spawn_all m (spawn_task j c s) i h.1 (spawn_task-IsOwned j c s own) in
    elim (interface_discrete j i) [
      | yes e ↦ rw (if_pos _ e) (ground (arith, rest, h.0, e, periods-spawn_task_self j c s own))
      | no n ↦ rw (if_neg _ n, ← periods-spawn_task_ne j c s own i n) rest
    ]

-- The running tasks of an interface are those that were spawned, or none.
periods-running_tasks :
    (support : Support) (i : TelemetryInterface) (ts : List Task)
    → periods i (running_tasks support ts) ≡ (if for_interface support i then periods i ts else [])
unfolding periods running_tasks
periods-running_tasks support i [] = ground arith
periods-running_tasks support i (t ∷ ts) = elim (interface_discrete t.interface i) [
  | yes e ↦ rw (if_pos _ e) (ground (arith, e, periods-running_tasks support i ts))
  | no n ↦ rw (if_neg _ n) (ground (arith, n, periods-running_tasks support i ts))
]

-- The state of the actor between two events.
pub record Runs {Content : Type 0} (s : Telemetry Content) : Type 0 where
  pub keyed : IsConfigs s.configs
  pub owned : IsOwned s.tasks
  pub spawned :
      (i : TelemetryInterface) → periods i s.tasks.spawned ≡ wanted_by (get_config i s.configs) []

module _ {Content : Type 0} (fs : FileSystem Content) where
  pub read_filestate-IsMap :
      (file : Option Content) (m : Configs) → IsConfigs m → IsConfigs (read_filestate fs file m)
  unfolding read_filestate
  read_filestate-IsMap file m h = elim (Option-cases (read fs file)) [
    | inl e ↦ rw e h
    | inr (saved, e) ↦ rw e (apply_saved-IsMap saved m h)
  ]

  pub start-IsMap :
      (base : List TelemetryInterfaceConfig) (file : Option Content)
      → IsConfigs (start fs base file).configs
  unfolding start
  start-IsMap base file = read_filestate-IsMap file _ (collect-IsMap base [] tt)

  pub initialize-Runs :
      (base : List TelemetryInterfaceConfig) (file : Option Content)
      → Runs (initialize (start fs base file))
  unfolding initialize start
  initialize-Runs base file =
      let keyed = start-IsMap base file in
      record {
        keyed = keyed;
        owned = spawn_all-IsOwned _ no_tasks no_tasks-IsOwned;
        spawned =
            λ i. unfold no_tasks periods in periods-spawn_all _ no_tasks i keyed no_tasks-IsOwned;
      }

  pub configure-Runs :
      (i : TelemetryInterface) (c : TaskConfig) (s : Telemetry Content)
      → Runs s
      → Runs (configure fs i c s)
  unfolding configure
  configure-Runs i c s h = record {
    keyed = put-IsMap interface_discrete i c s.configs h.keyed;
    owned = spawn_task-IsOwned i c s.tasks h.owned;
    spawned = λ j. elim (interface_discrete i j) [
      | yes e ↦ ground (
        arith,
        e,
        get-put_self interface_discrete i c s.configs,
        periods-spawn_task_self i c s.tasks h.owned,
      )
      | no n ↦
          rw
            (
              get-put_ne interface_discrete i j c s.configs n,
              periods-spawn_task_ne i c s.tasks h.owned j n,
            )
            (h.spawned j)
    ];
  }

  pub handle-Runs : (e : TelemetryEvent) (s : Telemetry Content) → Runs s → Runs (handle fs e s)
  unfolding handle
  handle-Runs e s h = elim (Option-cases (from_str e.interface)) [
    | inl q ↦ rw q h
    | inr (i, q) ↦ rw q (configure-Runs i _ s h)
  ]

  pub run-Runs : (es : List TelemetryEvent) (s : Telemetry Content) → Runs s → Runs (run fs es s)
  unfolding run
  run-Runs [] s h = h
  run-Runs (e ∷ es) s h = run-Runs es _ (handle-Runs e s h)

  pub run-spawned :
      (base : List TelemetryInterfaceConfig) (file : Option Content) (es : List TelemetryEvent)
      (i : TelemetryInterface)
      → let s = run fs es (initialize (start fs base file)) in
        periods i s.tasks.spawned ≡ wanted_by (get_config i s.configs) []
  run-spawned base file es i = (run-Runs es _ (initialize-Runs base file)).spawned i

  -- After the start and any events, an interface that is enabled with a period that is not zero has
  -- exactly one running task, with this period, if the program supports the interface: it was built with
  -- its feature, and an interface of the containers has its monitor. Any other interface has none.
  pub run-running :
      (support : Support) (base : List TelemetryInterfaceConfig) (file : Option Content)
      (es : List TelemetryEvent) (i : TelemetryInterface)
      → let s = run fs es (initialize (start fs base file)) in
        periods i (running_tasks support s.tasks.spawned)
        ≡ (if for_interface support i then wanted_by (get_config i s.configs) [] else [])
  run-running support base file es i =
      periods-running_tasks support i _
      ∙ ap (λ ps. if for_interface support i then ps else []) (run-spawned base file es i)
