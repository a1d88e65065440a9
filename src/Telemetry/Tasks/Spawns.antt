-- ===== src/Telemetry/Tasks/Spawns.antt =====
-- `spawn_task` starts the one task that a configuration asks for.
use edgehog_device_runtime.Base.{ℕ, ◌==◌, ◌≡◌, ◌≢◌, if◌then◌else◌, List, [], ◌∷◌, arith}
use edgehog_device_runtime.Telemetry.{TelemetryInterface, interface_discrete, TaskConfig, current}
use edgehog_device_runtime.Telemetry.Tasks.{TelemetryTasks, stop, start_task, spawn_task}
use edgehog_device_runtime.Telemetry.Tasks.Owned.{
  periods, IsOwned, stop-IsOwned, periods-stop_self, periods-stop_ne, get_token-stop,
  start_task-IsOwned,
}

-- the periods with which the tasks of an interface run under its configuration
unfoldable pub wanted : TaskConfig → List ℕ
wanted c =
    if current c.enabled then (if current c.period == 0 then [] else current c.period ∷ []) else []

module _ (i : TelemetryInterface) (c : TaskConfig) (s : TelemetryTasks) (own : IsOwned s) where
  pub spawn_task-IsOwned : IsOwned (spawn_task i c s)
  unfolding spawn_task
  spawn_task-IsOwned = ground (
    arith,
    stop-IsOwned i s own,
    start_task-IsOwned i (current c.period) (stop i s) (get_token-stop i s) (stop-IsOwned i s own),
  )

  pub periods-spawn_task_self : periods i (spawn_task i c s).spawned ≡ wanted c
  unfolding spawn_task wanted start_task periods
  periods-spawn_task_self = ground (arith, periods-stop_self i s own, interface_discrete i i)

  pub periods-spawn_task_ne :
      (j : TelemetryInterface) → i ≢ j → periods j (spawn_task i c s).spawned ≡ periods j s.spawned
  unfolding spawn_task start_task periods
  periods-spawn_task_ne j n = ground (arith, periods-stop_ne i j s own n, interface_discrete i j)
