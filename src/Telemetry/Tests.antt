-- ===== src/Telemetry/Tests.antt =====
-- The telemetry at concrete inputs: two interfaces in the configuration, and four events.
use edgehog_device_runtime.Base.{◌≡◌, if◌then◌else◌, refl, true, false, none, some, List, [], ◌∷◌}
use edgehog_device_runtime.Base.Assoc.{get, put, drop_key}
use edgehog_device_runtime.Telemetry.{
  system_status, storage_usage, geolocation, interface_discrete, from_str, TelemetryInterfaceConfig,
  from_config, get_config,
}
use edgehog_device_runtime.Telemetry.Tasks.{
  Support, for_interface, running_tasks, no_tasks, drop_token, cancel_token, stop, start_task,
  spawn_task,
}
use edgehog_device_runtime.Telemetry.Tasks.Owned.{periods}
use edgehog_device_runtime.Telemetry.Actor.{
  TelemetryConfig, TelemetryEvent, FileSystem, Telemetry, collect, apply_event, spawn_all, read,
  read_filestate, start, initialize, configure, handle, run,
}
use edgehog_device_runtime.Telemetry.Actor.Runs.{wanted_by, run-running}
use edgehog_device_runtime.Telemetry.Actor.Restart.Resumes.{IsReliable, setting, run-restart}

abbrev Content : Type 0
Content = List TelemetryInterfaceConfig

abbrev fs : FileSystem Content
fs = record {
  to_string = λ v. some v;
  of_string = λ v. some v;
  after_write = λ file v. some v;
  read_to_string = λ v. some v;
}

fs-IsReliable : IsReliable fs
fs-IsReliable = record {
  encodes = λ v. (v, refl, refl);
  stores = λ file text. refl;
  reads = λ text. refl;
}

abbrev base : List TelemetryInterfaceConfig
base =
    (record {
      interface_name = "io.edgehog.devicemanager.SystemStatus";
      enabled = some true;
      period = some 30;
    })
    ∷ (record {
      interface_name = "io.edgehog.devicemanager.StorageUsage";
      enabled = some false;
      period = none;
    })
    ∷ []

abbrev events : List TelemetryEvent
events =
    (record {
      interface = "io.edgehog.devicemanager.StorageUsage";
      config = TelemetryConfig.enable (some true);
    })
    ∷ (record {
      interface = "io.edgehog.devicemanager.SystemStatus";
      config = TelemetryConfig.period (some 0);
    })
    ∷ (record { interface = "unknown"; config = TelemetryConfig.enable (some true) })
    ∷ (record {
      interface = "io.edgehog.devicemanager.Geolocation";
      config = TelemetryConfig.period (some 5);
    })
    ∷ []

abbrev after_events : Telemetry Content
after_events = run fs events (initialize (start fs base none))

running_after :
    (periods system_status after_events.tasks.spawned ≡ [])
    × (periods storage_usage after_events.tasks.spawned ≡ 60 ∷ [])
    × (periods geolocation after_events.tasks.spawned ≡ [])
unfolding run handle configure apply_event start initialize spawn_all spawn_task stop cancel_token
    start_task drop_token no_tasks collect from_config from_str get put drop_key periods
    read_filestate read interface_discrete
running_after = (refl, refl, refl)

abbrev no_features : Support
no_features = record {
  zbus = false;
  wifiscanner = false;
  containers = false;
  stats_monitor = false;
}

run-running_example :
    periods storage_usage (running_tasks no_features after_events.tasks.spawned) ≡ (
      if for_interface no_features storage_usage
      then wanted_by (get_config storage_usage after_events.configs) []
      else [])
run-running_example = run-running fs no_features base none events storage_usage

run-restart_example :
    let restarted = initialize (start fs base after_events.file_state) in
    (setting storage_usage restarted.configs ≡ setting storage_usage after_events.configs)
    × (periods storage_usage restarted.tasks.spawned
        ≡ periods storage_usage after_events.tasks.spawned)
run-restart_example = run-restart fs fs-IsReliable base none events storage_usage
