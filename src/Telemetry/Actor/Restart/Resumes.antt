-- ===== src/Telemetry/Actor/Restart/Resumes.antt =====
-- A runtime that starts again has the settings and the tasks that it had.
use edgehog_device_runtime.Base.{
  ℕ, ◌≡◌, refl, sym, ◌∙◌, Bool, Option, none, some, Option-cases, List, [], ◌∷◌, inl, inr,
}
use edgehog_device_runtime.Base.Assoc.{get, put-IsMap}
use edgehog_device_runtime.Telemetry.{
  TelemetryInterface, interface_discrete, from_str, TelemetryInterfaceConfig, TaskConfig, Configs,
  get_config,
}
use edgehog_device_runtime.Telemetry.Tasks.Owned.{periods}
use edgehog_device_runtime.Telemetry.Tasks.Spawns.{wanted}
use edgehog_device_runtime.Telemetry.Actor.{
  TelemetryEvent, FileSystem, Telemetry, collect, or_default, saved_configs, write, read,
  apply_read, read_filestate, start, initialize, configure, handle, run,
}
use edgehog_device_runtime.Telemetry.Actor.Runs.{
  IsConfigs, wanted_by, run-spawned, start-IsMap, initialize-Runs,
}
use edgehog_device_runtime.Telemetry.Actor.Restart.Overlay.{apply_saved-saved_configs}
use edgehog_device_runtime.Telemetry.Actor.Restart.Defaults.{
  IsPlain, SameDefaults, Extends, AllExtend, settings, collect-IsPlain, put-AllExtend,
  apply_saved-AllExtend, apply_event-SameDefaults, settings-overlaid,
}

-- whether an interface is enabled, and its period
abbrev pub setting : TelemetryInterface → Configs → Bool × ℕ
setting i m = settings (or_default (get_config i m))

-- A value can be turned into a text and back, and the file has the text that was written to it.
pub record IsReliable {Content : Type 0} (fs : FileSystem Content) : Type 0 where
  pub encodes :
      (v : List TelemetryInterfaceConfig)
      → (text : Content) × (fs.to_string v ≡ some text) × (fs.of_string text ≡ some v)
  pub stores : (file : Option Content) (text : Content) → fs.after_write file text ≡ some text
  pub reads : (text : Content) → fs.read_to_string text ≡ some text

wanted_by-wanted : (o : Option TaskConfig) → wanted_by o [] ≡ wanted (or_default o)
unfolding wanted
wanted_by-wanted none = refl
wanted_by-wanted (some c) = refl

wanted-settings : (b c : TaskConfig) → settings b ≡ settings c → wanted b ≡ wanted c
unfolding wanted
wanted-settings b c e = cc e

Extends-refl : (o : Option TaskConfig) → Extends o o
Extends-refl none = refl
Extends-refl (some c) = (refl, refl)

module _ {Content : Type 0} (fs : FileSystem Content) (reliable : IsReliable fs) where
  read-write :
      (v : List TelemetryInterfaceConfig) (file : Option Content)
      → read fs (write fs v file) ≡ some v
  unfolding read write
  read-write v file =
      let (text, e, d) = reliable.encodes v in
      rw (e, reliable.stores file text, reliable.reads text) d

  module _ (base : List TelemetryInterfaceConfig) where
    -- the state of the actor, as its file would restore it
    record IsSaved (s : Telemetry Content) : Type 0 where
      keyed : IsConfigs s.configs
      extends : AllExtend (collect base []) s.configs
      restored :
          (i : TelemetryInterface)
          → setting i (start fs base s.file_state).configs ≡ setting i s.configs

    plain : (i : TelemetryInterface) → IsPlain (or_default (get_config i (collect base [])))
    unfolding get
    plain = collect-IsPlain base [] (λ i. (refl, refl))

    apply_read-AllExtend :
        (o : Option (List TelemetryInterfaceConfig))
        → AllExtend (collect base []) (apply_read fs o (collect base []))
    apply_read-AllExtend none = λ i. Extends-refl (get_config i (collect base []))
    apply_read-AllExtend (some saved) =
        apply_saved-AllExtend (collect base []) saved _
          (λ i. Extends-refl (get_config i (collect base [])))

    start-IsSaved : (file : Option Content) → IsSaved (initialize (start fs base file))
    unfolding start initialize read_filestate
    start-IsSaved file = record {
      keyed = start-IsMap fs base file;
      extends = apply_read-AllExtend (read fs file);
      restored = λ i. refl;
    }

    -- What was written last restores the settings of every interface.
    setting-write :
        (m : Configs) (file : Option Content)
        → IsConfigs m
        → AllExtend (collect base []) m
        → (i : TelemetryInterface)
        → setting i (start fs base (write fs (saved_configs m) file)).configs ≡ setting i m
    unfolding start read_filestate
    setting-write m file keyed extends i =
        rw
          (read-write (saved_configs m) file, apply_saved-saved_configs i m (collect base []) keyed)
          (settings-overlaid i _ (get_config i m) (plain i) (extends i))

    configure-IsSaved :
        (i : TelemetryInterface) (c : TaskConfig) (s : Telemetry Content)
        → SameDefaults (or_default (get_config i (collect base []))) c
        → IsSaved s
        → IsSaved (configure fs i c s)
    unfolding configure
    configure-IsSaved i c s same h =
        let keyed = put-IsMap interface_discrete i c s.configs h.keyed in
        let extends = put-AllExtend (collect base []) i c s.configs same h.extends in
        record {
          keyed = keyed;
          extends = extends;
          restored = setting-write _ s.file_state keyed extends;
        }

    handle-IsSaved :
        (e : TelemetryEvent) (s : Telemetry Content) → IsSaved s → IsSaved (handle fs e s)
    unfolding handle
    handle-IsSaved e s h = elim (Option-cases (from_str e.interface)) [
      | inl q ↦ rw q h
      | inr (i, q) ↦ rw q (
          configure-IsSaved i _ s
            (apply_event-SameDefaults e.config _ (get_config i s.configs) (h.extends i)) h)
    ]

    run-IsSaved :
        (es : List TelemetryEvent) (s : Telemetry Content) → IsSaved s → IsSaved (run fs es s)
    unfolding run
    run-IsSaved [] s h = h
    run-IsSaved (e ∷ es) s h = run-IsSaved es _ (handle-IsSaved e s h)

    wanted_by-settings :
        (o q : Option TaskConfig)
        → settings (or_default o) ≡ settings (or_default q)
        → wanted_by o [] ≡ wanted_by q []
    wanted_by-settings o q e = wanted_by-wanted o ∙ wanted-settings _ _ e ∙ sym (wanted_by-wanted q)

    -- Where texts and files keep what they are given, a runtime that starts again after any events has
    -- for each interface the enabling and the period that it had, and runs the same telemetry tasks.
    pub run-restart :
        (file : Option Content) (es : List TelemetryEvent) (i : TelemetryInterface)
        → let s = run fs es (initialize (start fs base file)) in
          let restarted = initialize (start fs base s.file_state) in
          (setting i restarted.configs ≡ setting i s.configs)
          × (periods i restarted.tasks.spawned ≡ periods i s.tasks.spawned)
    unfolding initialize
    run-restart file es i =
        let s = run fs es (initialize (start fs base file)) in
        let same = (run-IsSaved es _ (start-IsSaved file)).restored i in
        (
          same,
          (initialize-Runs fs base s.file_state).spawned i
              ∙ wanted_by-settings _ _ same
              ∙ sym (run-spawned fs base file es i),
        )
