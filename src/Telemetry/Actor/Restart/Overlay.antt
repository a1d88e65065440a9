-- ===== src/Telemetry/Actor/Restart/Overlay.antt =====
-- Saving a map of configurations and applying it to another one, entry by entry.

use edgehog_device_runtime.Base.{
  ◌≡◌, refl, ap, ◌∙◌, if_pos, if_neg, Bool, true, false, Bool-cases, Option, none, some,
  Option-cases, List, [], ◌∷◌, arith, inl, inr, if◌then◌else◌,
}
use edgehog_device_runtime.Base.Assoc.{get, get-put_self, get-put_ne}
use edgehog_device_runtime.Telemetry.{
  TelemetryInterface, system_status, storage_usage, battery_status, wifi_scan_results,
  container_blkio, container_cpu, container_memory, container_memory_stats, container_networks,
  container_processes, volume_usage, geolocation, cellular_connection_status, interface_discrete,
  as_interface, from_str, TelemetryInterfaceConfig, TaskConfig, from_override, Configs, get_config,
  put_config,
}
use edgehog_device_runtime.Telemetry.Actor.{apply_saved, merge, to_saved, is_saved, saved_configs}
use edgehog_device_runtime.Telemetry.Actor.Runs.{IsConfigs}

-- A name that is printed is parsed as its interface.
pub from_str-as_interface : (i : TelemetryInterface) → from_str (as_interface i) ≡ some i
unfolding from_str as_interface
from_str-as_interface system_status = refl
from_str-as_interface storage_usage = refl
from_str-as_interface battery_status = refl
from_str-as_interface wifi_scan_results = refl
from_str-as_interface container_blkio = refl
from_str-as_interface container_cpu = refl
from_str-as_interface container_memory = refl
from_str-as_interface container_memory_stats = refl
from_str-as_interface container_networks = refl
from_str-as_interface container_processes = refl
from_str-as_interface volume_usage = refl
from_str-as_interface geolocation = refl
from_str-as_interface cellular_connection_status = refl

abbrev pub overlaid_if : Bool → TelemetryInterfaceConfig → Option TaskConfig → Option TaskConfig
overlaid_if true c o = merge c o
overlaid_if false c o = o

-- the configuration of an interface, after the entries of a map were saved and applied to another map
abbrev pub overlaid : TelemetryInterface → Option TaskConfig → Option TaskConfig → Option TaskConfig
overlaid i none o = o
overlaid i (some c) o = overlaid_if (is_saved c) (to_saved i c) o

merge-to_saved :
    (i : TelemetryInterface) (c : TaskConfig) (o : Option TaskConfig)
    → is_saved c ≡ true
    → (v : TaskConfig) × (merge (to_saved i c) o ≡ some v)
unfolding merge from_override
merge-to_saved i c o h = elim (Option-cases (merge (to_saved i c) o)) [
  | inl e ↦ absurd (ground (arith, h, e))
  | inr found ↦ found
]

apply_saved-to_saved :
    (j : TelemetryInterface) (c v : TaskConfig) (cs : List TelemetryInterfaceConfig) (a : Configs)
    → merge (to_saved j c) (get_config j a) ≡ some v
    → apply_saved (to_saved j c ∷ cs) a ≡ apply_saved cs (put_config j v a)
unfolding apply_saved
apply_saved-to_saved j c v cs a e = rw (from_str-as_interface j, e) refl

pub apply_saved-saved_configs :
    (i : TelemetryInterface) (m a : Configs)
    → IsConfigs m
    → get_config i (apply_saved (saved_configs m) a) ≡ overlaid i (get_config i m) (get_config i a)
unfolding saved_configs get
apply_saved-saved_configs i [] a h = unfold apply_saved in refl
apply_saved-saved_configs i ((j, c) ∷ m) a h = elim (Bool-cases (is_saved c)) [
  | inl p ↦
      let (v, e) = merge-to_saved j c (get_config j a) p in
      let rest = apply_saved-saved_configs i m (put_config j v a) h.1 in
      rw (p, if◌then◌else◌, apply_saved-to_saved j c v (saved_configs m) a e)
        (elim (interface_discrete j i) [
          | yes q ↦
              rw (if_pos _ q, p)
                (ground (arith, rest, h.0, q, e, get-put_self interface_discrete j v a))
          | no n ↦
              rw (if_neg _ n)
                (rest ∙ ap (overlaid i (get_config i m)) (get-put_ne interface_discrete j i v a n))
        ])
  | inr p ↦
      let rest = apply_saved-saved_configs i m a h.1 in
      rw p (elim (interface_discrete j i) [
        | yes q ↦ rw (if_pos _ q, p) (ground (arith, rest, h.0, q))
        | no n ↦ rw (if_neg _ n) rest
      ])
]
