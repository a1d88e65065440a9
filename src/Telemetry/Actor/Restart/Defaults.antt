-- ===== src/Telemetry/Actor/Restart/Defaults.antt =====
-- The defaults of a configuration are those of the runtime's own file, whatever stands in for them.
use edgehog_device_runtime.Base.{
  ℕ, ◌≡◌, refl, subst, Bool, Option, none, some, Option-cases, List, [], ◌∷◌, arith, inl, inr,
}
use edgehog_device_runtime.Base.Assoc.{get-put_self, get-put_ne}
use edgehog_device_runtime.Telemetry.{
  TelemetryInterface, interface_discrete, from_str, TelemetryInterfaceConfig, TaskConfig, current,
  from_config, from_override, Configs, get_config, put_config,
}
use edgehog_device_runtime.Telemetry.Actor.{
  TelemetryConfig, collect, apply_saved, restore, merge, apply_event, or_default,
}
use edgehog_device_runtime.Telemetry.Actor.Restart.Overlay.{overlaid}

-- No value stands in for a default.
abbrev pub IsPlain : TaskConfig → Type 0
IsPlain c = (c.enabled.value ≡ none) × (c.period.value ≡ none)

-- The defaults are those of the other configuration.
abbrev pub SameDefaults : TaskConfig → TaskConfig → Type 0
SameDefaults b c = (c.enabled.default ≡ b.enabled.default) × (c.period.default ≡ b.period.default)

-- A configuration that is there has its defaults from the other one, or from the fixed ones.
abbrev pub Extends : Option TaskConfig → Option TaskConfig → Type 0
Extends o none = o ≡ none
Extends o (some c) = SameDefaults (or_default o) c

abbrev pub settings : TaskConfig → Bool × ℕ
settings c = (current c.enabled, current c.period)

pub collect-IsPlain :
    (cs : List TelemetryInterfaceConfig) (m : Configs)
    → ((i : TelemetryInterface) → IsPlain (or_default (get_config i m)))
    → (i : TelemetryInterface) → IsPlain (or_default (get_config i (collect cs m)))
unfolding collect
collect-IsPlain [] m h i = h i
collect-IsPlain (c ∷ cs) m h i = elim (Option-cases (from_str c.interface_name)) [
  | inl e ↦ rw e (collect-IsPlain cs m h i)
  | inr (j, e) ↦ rw e (
      collect-IsPlain cs (put_config j (from_config c) m)
        (λ q. elim (interface_discrete j q) [
          | yes p ↦
              rw (← p, get-put_self interface_discrete j (from_config c) m)
                (unfold from_config in (refl, refl))
          | no n ↦ rw (get-put_ne interface_discrete j q (from_config c) m n) (h q)
        ])
        i)
]

merge-Extends :
    (c : TelemetryInterfaceConfig) (b o : Option TaskConfig) → Extends b o → Extends b (merge c o)
unfolding merge from_override
merge-Extends c b none h = ground (arith, h)
merge-Extends c b (some v) h = ground (arith, h)

-- What is put under a key extends what it extended before.
module _ (base : Configs) where
  abbrev pub AllExtend : Configs → Type 0
  AllExtend m = (i : TelemetryInterface) → Extends (get_config i base) (get_config i m)

  pub put-AllExtend :
      (j : TelemetryInterface) (v : TaskConfig) (m : Configs)
      → SameDefaults (or_default (get_config j base)) v
      → AllExtend m
      → AllExtend (put_config j v m)
  put-AllExtend j v m e h i = elim (interface_discrete j i) [
    | yes p ↦ rw (← p, get-put_self interface_discrete j v m) e
    | no n ↦ rw (get-put_ne interface_discrete j i v m n) (h i)
  ]

  restore-AllExtend :
      (o : Option TelemetryInterface) (c : TelemetryInterfaceConfig) (m : Configs)
      → AllExtend m
      → AllExtend (restore o c m)
  restore-AllExtend none c m h = h
  restore-AllExtend (some j) c m h = elim (Option-cases (merge c (get_config j m))) [
    | inl e ↦ rw e h
    | inr (v, e) ↦ rw e (
        put-AllExtend j v m
          (subst (Extends (get_config j base)) e (merge-Extends c (get_config j base) _ (h j))) h)
  ]

  pub apply_saved-AllExtend :
      (cs : List TelemetryInterfaceConfig) (m : Configs)
      → AllExtend m
      → AllExtend (apply_saved cs m)
  unfolding apply_saved
  apply_saved-AllExtend [] m h = h
  apply_saved-AllExtend (c ∷ cs) m h =
      apply_saved-AllExtend cs _ (restore-AllExtend (from_str c.interface_name) c m h)

pub apply_event-SameDefaults :
    (e : TelemetryConfig) (b o : Option TaskConfig)
    → Extends b o
    → SameDefaults (or_default b) (apply_event e (or_default o))
unfolding apply_event
apply_event-SameDefaults (TelemetryConfig.enable v) b o h = ground (arith, h)
apply_event-SameDefaults (TelemetryConfig.period v) b o h = ground (arith, h)

-- A configuration that was saved and applied to the plain one has the settings that it had.
pub settings-overlaid :
    (i : TelemetryInterface) (b o : Option TaskConfig)
    → IsPlain (or_default b)
    → Extends b o
    → settings (or_default (overlaid i o b)) ≡ settings (or_default o)
unfolding merge from_override
settings-overlaid i b none p h = rw h refl
settings-overlaid i none (some c) p h = ground (arith, p.0, p.1, h.0, h.1)
settings-overlaid i (some b) (some c) p h = ground (arith, p.0, p.1, h.0, h.1)
