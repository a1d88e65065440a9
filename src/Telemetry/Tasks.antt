-- ===== src/Telemetry/Tasks.antt =====
-- `TelemetryTasks` of src/telemetry/mod.rs: the periodic tasks and the tokens that cancel them. A token
-- is the number of tokens that were made before it. A task that is spawned runs until its token is
-- cancelled, if it does not end at once: `Task::for_interface` and `container` of src/telemetry/sender.rs.
pub mod Owned
pub mod Spawns
use edgehog_device_runtime.Base.Assoc.{get, put, drop_key}
use edgehog_device_runtime.Base.{
  ℕ, suc, ◌==◌, ◌&&◌, Bool, true, false, if◌then◌else◌, Option, none, some, List, [], ◌∷◌,
}
use edgehog_device_runtime.Telemetry.{
  TelemetryInterface, system_status, storage_usage, battery_status, wifi_scan_results,
  container_blkio, container_cpu, container_memory, container_memory_stats, container_networks,
  container_processes, volume_usage, geolocation, cellular_connection_status, interface_discrete,
  TaskConfig, current,
}

-- `Task::spawn`, with the period of its interval
pub record Task : Type 0 where
  pub interface : TelemetryInterface
  pub token : ℕ
  pub period : ℕ

pub record TelemetryTasks : Type 0 where
  pub tasks : List (TelemetryInterface × ℕ)
  -- the tokens made so far
  pub made : ℕ
  -- the tasks that were spawned and not cancelled, the latest first
  pub spawned : List Task

-- What the program was built with, and whether it is connected to a client of the containers.
pub record Support : Type 0 where
  -- the feature `zbus`, on Linux
  pub zbus : Bool
  pub wifiscanner : Bool
  pub containers : Bool
  pub stats_monitor : Bool

-- `Task::container`: without the feature or the monitor the task returns
unfoldable pub for_container : Support → Bool
for_container support = support.containers && support.stats_monitor

-- `Task::for_interface`: whether the task comes to `run`, which ends with its token
unfoldable pub for_interface : Support → TelemetryInterface → Bool
for_interface support system_status = true
for_interface support storage_usage = true
for_interface support battery_status = support.zbus
for_interface support wifi_scan_results = support.wifiscanner
for_interface support container_blkio = for_container support
for_interface support container_cpu = for_container support
for_interface support container_memory = for_container support
for_interface support container_memory_stats = for_container support
for_interface support container_networks = for_container support
for_interface support container_processes = for_container support
for_interface support volume_usage = for_container support
for_interface support geolocation = support.zbus
for_interface support cellular_connection_status = support.zbus

-- the tasks that run, of those that were spawned and not cancelled
unfoldable pub running_tasks : Support → List Task → List Task
running_tasks support [] = []
running_tasks support (t ∷ ts) =
    let rest = running_tasks support ts in
    if for_interface support t.interface then t ∷ rest else rest

unfoldable pub no_tasks : TelemetryTasks
no_tasks = record { tasks = []; made = 0; spawned = [] }

unfoldable pub drop_token : ℕ → List Task → List Task
drop_token k [] = []
drop_token k (t ∷ ts) = let rest = drop_token k ts in if t.token == k then rest else t ∷ rest

-- `if let Some(cancel) = self.tasks.remove(&t_itf) { cancel.cancel(); }` on the token that was found
unfoldable pub cancel_token : TelemetryInterface → Option ℕ → TelemetryTasks → TelemetryTasks
cancel_token i none s = s
cancel_token i (some k) s = record s {
  tasks = drop_key interface_discrete i s.tasks;
  spawned = drop_token k s.spawned;
}

unfoldable pub stop : TelemetryInterface → TelemetryTasks → TelemetryTasks
stop i s = cancel_token i (get interface_discrete i s.tasks) s

-- `child_token`, `Task::spawn` and the insertion of the token
unfoldable pub start_task : TelemetryInterface → ℕ → TelemetryTasks → TelemetryTasks
start_task i period s = record {
  tasks = put interface_discrete i s.made s.tasks;
  made = suc s.made;
  spawned = (record { interface = i; token = s.made; period = period }) ∷ s.spawned;
}

unfoldable pub spawn_task : TelemetryInterface → TaskConfig → TelemetryTasks → TelemetryTasks
spawn_task i c s =
    if current c.enabled
    then (if current c.period == 0 then stop i s else start_task i (current c.period) (stop i s))
    else stop i s
