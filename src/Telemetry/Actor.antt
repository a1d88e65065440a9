-- ===== src/Telemetry/Actor.antt =====
-- The actor of src/telemetry/mod.rs with its configuration and the file that keeps it
-- (src/repository/file_state_repository.rs), and the events of src/telemetry/event.rs. What the actor
-- sends at its start is left out.
pub mod Runs
pub mod Restart
use edgehog_device_runtime.Base.{
  ℕ, ◌-◌, ◌^◌, String, Bool, ◌||◌, if◌then◌else◌, Option, none, some, List, [], ◌∷◌, ℤ, pos, negsuc,
}
use edgehog_device_runtime.Telemetry.{
  TelemetryInterface, as_interface, from_str, TelemetryInterfaceConfig, TaskConfig, default_config,
  from_config, from_override, Configs, get_config, put_config, or_else, set_some, replace,
  is_overwritten,
}
use edgehog_device_runtime.Telemetry.Tasks.{TelemetryTasks, no_tasks, spawn_task}

pub data TelemetryConfig : Type 0 where
  enable : Option Bool → TelemetryConfig
  period : Option ℕ → TelemetryConfig

pub record TelemetryEvent : Type 0 where
  pub interface : String
  pub config : TelemetryConfig

-- `TelemetryPeriod::try_from`, behind the conversion to `i64`
unfoldable pub period_of : ℤ → ℕ
period_of (pos secs) = secs
period_of (negsuc _) = 2 ^ 64 - 1

-- What the JSON library and the file system do: the text of a value, the value of a text, the file's
-- content after a write, which may have failed, and what is read of a content.
pub record FileSystem (Content : Type 0) : Type 0 where
  pub to_string : List TelemetryInterfaceConfig → Option Content
  pub of_string : Content → Option (List TelemetryInterfaceConfig)
  pub after_write : Option Content → Content → Option Content
  pub read_to_string : Content → Option Content

pub record Telemetry (Content : Type 0) : Type 0 where
  pub configs : Configs
  pub tasks : TelemetryTasks
  -- the content of `telemetry.json`, where it is a file
  pub file_state : Option Content

abbrev pub add_config : Option TelemetryInterface → TelemetryInterfaceConfig → Configs → Configs
add_config none c m = m
add_config (some i) c m = put_config i (from_config c) m

-- the configuration of the file of the runtime, where the last entry of an interface counts
unfoldable pub collect : List TelemetryInterfaceConfig → Configs → Configs
collect [] m = m
collect (c ∷ cs) m = collect cs (add_config (from_str c.interface_name) c m)

-- `entry(interface).and_modify(…)`, and `or_insert` where there is something to insert
unfoldable pub merge : TelemetryInterfaceConfig → Option TaskConfig → Option TaskConfig
merge saved none = from_override saved
merge saved (some c) =
    some (record {
      enabled = set_some saved.enabled c.enabled;
      period = set_some saved.period c.period;
    })

abbrev pub put_some : TelemetryInterface → Option TaskConfig → Configs → Configs
put_some i none m = m
put_some i (some c) m = put_config i c m

abbrev pub restore : Option TelemetryInterface → TelemetryInterfaceConfig → Configs → Configs
restore none saved m = m
restore (some i) saved m = put_some i (merge saved (get_config i m)) m

-- the loop of `read_filestate`
unfoldable pub apply_saved : List TelemetryInterfaceConfig → Configs → Configs
apply_saved [] m = m
apply_saved (c ∷ cs) m = apply_saved cs (restore (from_str c.interface_name) c m)

abbrev pub to_saved : TelemetryInterface → TaskConfig → TelemetryInterfaceConfig
to_saved i c = record {
  interface_name = as_interface i;
  enabled = c.enabled.value;
  period = c.period.value;
}

abbrev pub is_saved : TaskConfig → Bool
is_saved c = is_overwritten c.enabled || is_overwritten c.period

-- what `save_telemetry_config` collects
unfoldable pub saved_configs : Configs → List TelemetryInterfaceConfig
saved_configs [] = []
saved_configs ((i, c) ∷ m) = if is_saved c then to_saved i c ∷ saved_configs m else saved_configs m

unfoldable pub apply_event : TelemetryConfig → TaskConfig → TaskConfig
apply_event (enable e) c = record c { enabled = replace e c.enabled }
apply_event (period p) c = record c { period = replace p c.period }

abbrev pub or_default : Option TaskConfig → TaskConfig
or_default = or_else default_config

-- the loop of `run_telemetry`
unfoldable pub spawn_all : Configs → TelemetryTasks → TelemetryTasks
spawn_all [] s = s
spawn_all ((i, c) ∷ m) s = spawn_all m (spawn_task i c s)

unfoldable pub initialize : {Content : Type 0} → Telemetry Content → Telemetry Content
initialize s = record s { tasks = spawn_all s.configs s.tasks }

module _ {Content : Type 0} (fs : FileSystem Content) where
  abbrev pub written : Option Content → Option Content → Option Content
  written file none = file
  written file (some text) = fs.after_write file text

  -- `FileStateRepository::write`, whose error is only logged
  unfoldable pub write : List TelemetryInterfaceConfig → Option Content → Option Content
  write value file = written file (fs.to_string value)

  abbrev pub parsed : Option Content → Option (List TelemetryInterfaceConfig)
  parsed none = none
  parsed (some text) = fs.of_string text

  -- `exists` and `FileStateRepository::read`: `none` where there is no file or it cannot be read
  unfoldable pub read : Option Content → Option (List TelemetryInterfaceConfig)
  read none = none
  read (some content) = parsed (fs.read_to_string content)

  abbrev pub apply_read : Option (List TelemetryInterfaceConfig) → Configs → Configs
  apply_read none m = m
  apply_read (some saved) m = apply_saved saved m

  unfoldable pub read_filestate : Option Content → Configs → Configs
  read_filestate file m = apply_read (read file) m

  -- `Telemetry::from_config`
  unfoldable pub start : List TelemetryInterfaceConfig → Option Content → Telemetry Content
  start configs file = record {
    configs = read_filestate file (collect configs []);
    tasks = no_tasks;
    file_state = file;
  }

  -- `handle` for an interface that is known, with its new configuration
  unfoldable pub configure : TelemetryInterface → TaskConfig → Telemetry Content → Telemetry Content
  configure i c s =
      let configs = put_config i c s.configs in
      record {
        configs = configs;
        tasks = spawn_task i c s.tasks;
        file_state = write (saved_configs configs) s.file_state;
      }

  abbrev pub handle_known :
      Option TelemetryInterface → TelemetryConfig → Telemetry Content → Telemetry Content
  handle_known none e s = s
  handle_known (some i) e s = configure i (apply_event e (or_default (get_config i s.configs))) s

  unfoldable pub handle : TelemetryEvent → Telemetry Content → Telemetry Content
  handle msg s = handle_known (from_str msg.interface) msg.config s

  unfoldable pub run : List TelemetryEvent → Telemetry Content → Telemetry Content
  run [] s = s
  run (e ∷ es) s = run es (handle e s)
