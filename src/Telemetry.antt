-- ===== src/Telemetry.antt =====
-- The periodic telemetry: src/telemetry/mod.rs, with the interfaces of src/telemetry/stats/mod.rs, the
-- period of src/telemetry/event.rs and the file of src/repository/file_state_repository.rs.
-- A `Duration` is a number of whole seconds, as each of them is made by `Duration::from_secs`.
pub mod Tasks
pub mod Actor
pub mod Tests
use text.Mathlib.Text.{◌==◌}
use edgehog_device_runtime.Base.Assoc.{get, put, drop_key}
use edgehog_device_runtime.Base.{
  ℕ, zero, suc, ◌+◌, String, Bool, true, false, not, ◌&&◌, ◌||◌, if◌then◌else◌, Option, none, some,
  List, [], ◌∷◌, ℤ, pos,
}

pub data TelemetryInterface : Type 0 where
  system_status storage_usage battery_status wifi_scan_results : TelemetryInterface
  container_blkio container_cpu container_memory container_memory_stats : TelemetryInterface
  container_networks container_processes volume_usage geolocation : TelemetryInterface
  cellular_connection_status : TelemetryInterface

pub interface_discrete : Discrete TelemetryInterface
interface_discrete = hlevel

unfoldable pub as_interface : TelemetryInterface → String
as_interface system_status = "io.edgehog.devicemanager.SystemStatus"
as_interface storage_usage = "io.edgehog.devicemanager.StorageUsage"
as_interface battery_status = "io.edgehog.devicemanager.BatteryStatus"
as_interface wifi_scan_results = "io.edgehog.devicemanager.WiFiScanResults"
as_interface container_blkio = "io.edgehog.devicemanager.apps.stats.ContainerBlkio"
as_interface container_cpu = "io.edgehog.devicemanager.apps.stats.ContainerCpu"
as_interface container_memory = "io.edgehog.devicemanager.apps.stats.ContainerMemory"
as_interface container_memory_stats = "io.edgehog.devicemanager.apps.stats.ContainerMemoryStats"
as_interface container_networks = "io.edgehog.devicemanager.apps.stats.ContainerNetworks"
as_interface container_processes = "io.edgehog.devicemanager.apps.stats.ContainerProcesses"
as_interface volume_usage = "io.edgehog.devicemanager.apps.stats.VolumeUsage"
as_interface geolocation = "io.edgehog.devicemanager.Geolocation"
as_interface cellular_connection_status = "io.edgehog.devicemanager.CellularConnectionStatus"

-- `FromStr for TelemetryInterface`; `none` for an unsupported interface
unfoldable pub from_str : String → Option TelemetryInterface
from_str s =
    if s == "io.edgehog.devicemanager.SystemStatus"
    then some system_status
    else if s == "io.edgehog.devicemanager.StorageUsage"
    then some storage_usage
    else if s == "io.edgehog.devicemanager.BatteryStatus"
    then some battery_status
    else if s == "io.edgehog.devicemanager.WiFiScanResults"
    then some wifi_scan_results
    else if s == "io.edgehog.devicemanager.apps.stats.ContainerBlkio"
    then some container_blkio
    else if s == "io.edgehog.devicemanager.apps.stats.ContainerCpu"
    then some container_cpu
    else if s == "io.edgehog.devicemanager.apps.stats.ContainerMemory"
    then some container_memory
    else if s == "io.edgehog.devicemanager.apps.stats.ContainerMemoryStats"
    then some container_memory_stats
    else if s == "io.edgehog.devicemanager.apps.stats.ContainerNetworks"
    then some container_networks
    else if s == "io.edgehog.devicemanager.apps.stats.ContainerProcesses"
    then some container_processes
    else if s == "io.edgehog.devicemanager.apps.stats.VolumeUsage"
    then some volume_usage
    else if s == "io.edgehog.devicemanager.Geolocation"
    then some geolocation
    else if s == "io.edgehog.devicemanager.CellularConnectionStatus"
    then some cellular_connection_status
    else none

-- A default that a value can stand in for.
pub record Overridable (T : Type 0) : Type 0 where
  pub default : T
  pub value : Option T

module _ {T : Type 0} where
  abbrev pub new : T → Overridable T
  new d = record { default = d; value = none }

  abbrev pub with_override : T → T → Overridable T
  with_override d v = record { default = d; value = some v }

  abbrev pub or_else : T → Option T → T
  or_else d none = d
  or_else d (some v) = v

  -- `Overridable::get`
  abbrev pub current : Overridable T → T
  current o = or_else o.default o.value

  abbrev pub set : T → Overridable T → Overridable T
  set v o = record o { value = some v }

  abbrev pub unset : Overridable T → Overridable T
  unset o = record o { value = none }

  abbrev pub is_some : Option T → Bool
  is_some none = false
  is_some (some v) = true

  abbrev pub is_overwritten : Overridable T → Bool
  is_overwritten o = is_some o.value

  -- `if let Some(value) = … { o.set(value) }`
  abbrev pub set_some : Option T → Overridable T → Overridable T
  set_some none o = o
  set_some (some v) o = set v o

  -- `set` or `unset`, as an event says
  abbrev pub replace : Option T → Overridable T → Overridable T
  replace none o = unset o
  replace (some v) o = set v o

  -- the default, with the value where there is one
  abbrev pub overridden : T → Option T → Overridable T
  overridden d none = new d
  overridden d (some v) = with_override d v

pub record TelemetryInterfaceConfig : Type 0 where
  pub interface_name : String
  pub enabled : Option Bool
  pub period : Option ℕ

pub record TaskConfig : Type 0 where
  pub enabled : Overridable Bool
  pub period : Overridable ℕ

abbrev pub default_period : ℕ
default_period = 60

abbrev pub default_config : TaskConfig
default_config = record { enabled = new false; period = new default_period }

unfoldable pub from_config : TelemetryInterfaceConfig → TaskConfig
from_config c = record {
  enabled = new (or_else false c.enabled);
  period = new (or_else default_period c.period);
}

unfoldable pub from_override : TelemetryInterfaceConfig → Option TaskConfig
from_override over =
    if not (is_some over.enabled) && not (is_some over.period)
    then none
    else some (record {
      enabled = overridden false over.enabled;
      period = overridden default_period over.period;
    })

-- `HashMap<TelemetryInterface, TaskConfig>`
abbrev pub Configs : Type 0
Configs = List (TelemetryInterface × TaskConfig)

abbrev pub get_config : TelemetryInterface → Configs → Option TaskConfig
get_config = get interface_discrete

abbrev pub put_config : TelemetryInterface → TaskConfig → Configs → Configs
put_config = put interface_discrete
