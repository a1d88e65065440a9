-- ===== src/Ota/Machine/Termination.antt =====
-- The loop of `handle_ota_update` in src/ota/mod.rs: how it ends.
use edgehog_device_runtime.Base.{
  ℕ, zero, suc, ◌<◌, ◌≤◌, ◌≡◌, ◌≢◌, refl, ◌⊎◌, Bool, true, false, Option, none, some, List, [], ◌∷◌,
  arith, Result, ok, err, Bool-cases, inl, inr, When, Must, Must-bind,
}
use edgehog_device_runtime.Ota.Status.{
  DeployStatus, progress, completed, OtaError, canceled, ota_id, OtaId, OtaStatus, idle, rebooted,
  init, acknowledged, downloading, deploying, deployed, rebooting, failure, is_cancellable,
}
use edgehog_device_runtime.Ota.Env.{Env, History, poll_cancel, publish}
use edgehog_device_runtime.Ota.Update.{
  Ota, is_due, fold_status, installed, follow_install, install, deploy, reboot, wait_reboot,
  check_reboot, do_pending_ota,
}
use edgehog_device_runtime.Ota.Machine.{
  Loop, finished, running, is_idle, next_status_of, next, run_until_cancelled, clear, close,
  handle_ota_update, guarded_step, plain_step, late_step, advance, update_loop, mark_progress,
}
use edgehog_device_runtime.Ota.Machine.Diagram
use edgehog_device_runtime.Ota.Machine.Diagram.{
  ◌⟶◌, Follows, next-Follows, rank, is_waiting, rank-⟶,
}

-- A run outside of `run_until_cancelled` is never dropped.
abbrev pub Completes : {A : Type 0} → Result (Unit {0}) A → Type 0
Completes r = Must (λ _. Unit) r

module _ (env : Env) where
  fold_status-Completes :
      (req : OtaId) (prev : DeployStatus) (items : List (Option DeployStatus)) (h : History)
      → Completes (fold_status env false req prev items h).0
  unfolding fold_status
  fold_status-Completes req prev [] h = tt
  fold_status-Completes req prev (none ∷ rest) h = tt
  fold_status-Completes req prev (some (completed n) ∷ rest) h = fold_status-Completes req _ rest _
  fold_status-Completes req prev (some (progress p) ∷ rest) h = elim (Bool-cases (is_due prev p)) [
    | inl due ↦ rw due (fold_status-Completes req (progress p) rest _)
    | inr early ↦ rw early (fold_status-Completes req prev rest _)
  ]

  installed-Completes :
      (req : OtaId) (last : Option DeployStatus) (h : History)
      → Completes (installed env false req last h).0
  unfolding installed
  installed-Completes req last h = ground arith

  install-Completes :
      (req : OtaId) (uri : _) (h : History) → Completes (install env false req uri h).0
  unfolding install follow_install
  install-Completes req uri h = grind (arith, installed-Completes, fold_status-Completes)

  deploy-Completes : (s : Ota) (req : OtaId) (h : History) → Completes (deploy env false s req h).0
  unfolding deploy
  deploy-Completes s req h = grind (arith, install-Completes)

  reboot-Completes : (s : Ota) (req : OtaId) (h : History) → Completes (reboot env false s req h).0
  unfolding reboot
  reboot-Completes s req h = ground arith

  check_reboot-Completes : (h : History) → Completes (check_reboot env false h).0
  unfolding check_reboot do_pending_ota
  check_reboot-Completes h = ground arith

  wait_reboot-Completes : (req : OtaId) (h : History) → Completes (wait_reboot env false req h).0
  unfolding wait_reboot
  wait_reboot-Completes req h = tt

  pub next_status_of-Completes :
      (s : Ota) (st : OtaStatus) (h : History)
      → is_cancellable st ≡ false
      → Completes (next_status_of env false s st h).0
  unfolding next_status_of is_cancellable
  next_status_of-Completes s (deploying req p) h _ = deploy-Completes s req h
  next_status_of-Completes s (deployed req) h _ = reboot-Completes s req h
  next_status_of-Completes s rebooted h _ = check_reboot-Completes h
  next_status_of-Completes s (rebooting req) h _ = wait_reboot-Completes req h
  next_status_of-Completes s (init req) h c = cc
  next_status_of-Completes s (acknowledged req) h c = cc
  next_status_of-Completes s (downloading req p) h c = cc
  next_status_of-Completes s _ h _ = tt

-- The device waits for its reboot, or the loop has come nearer to its end.
abbrev Nears : OtaStatus → OtaStatus → Type 0
Nears a b = (is_waiting b ≡ true) ⊎ ((is_waiting a ≡ false) × (rank b < rank a))

Nears-⟶ : {a b : OtaStatus} → a ⟶ b → Nears a b
Nears-⟶ Diagram.wait = inl refl
Nears-⟶ Diagram.restart = inl refl
Nears-⟶ _ = inr (refl, omega arith)

Nears-Follows :
    (a : OtaStatus) (r : Result (Unit {0}) OtaStatus) → Follows a r → When (λ b. Nears a b) r
Nears-Follows a (ok b) e = Nears-⟶ e
Nears-Follows a (err _) e = tt

pub Must-When {ℓ} :
    {E A : Type ℓ} (P : A → Type 0) (r : Result E A)
    → When P r
    → Must {E = E} (λ _. Unit) r
    → Must P r
Must-When P (ok a) p m = p
Must-When P (err e) p m = m

failure-Nears :
    (a : OtaStatus) (e : OtaError) → is_cancellable a ≡ true → Nears a (failure e (ota_id a))
unfolding is_cancellable
failure-Nears a e c = ground arith

cancellable-ne-idle : (a : OtaStatus) → is_cancellable a ≡ true → a ≢ idle
unfolding is_cancellable
cancellable-ne-idle a c = ground arith

-- the loop's rounds start from a status that is not `Idle`
pub ne-idle : (a : OtaStatus) → is_idle a ≡ false → a ≢ idle
unfolding is_idle
ne-idle a e i = ground arith

pub is_idle-eq : (a : OtaStatus) → is_idle a ≡ true → a ≡ idle
unfolding is_idle
is_idle-eq a e = ground arith

closer :
    (a b : OtaStatus) (fuel : ℕ)
    → (is_waiting a ≡ true) ⊎ (rank a < suc fuel)
    → Nears a b
    → (is_waiting b ≡ true) ⊎ (rank b < fuel)
closer a b fuel w n = ground arith

enough : (a : OtaStatus) (fuel : ℕ) → 8 ≤ fuel → rank a < fuel
enough a fuel k = ground arith

abbrev pub Ends : Loop → Type 0
Ends (finished s) = (s.ota_status ≡ idle) × (s.flag ≡ false)
Ends (running s) = is_waiting s.ota_status ≡ true

module _ (env : Env) where
  abbrev StepNears : Ota → Result (Unit {0}) (Bool × Ota) → Type 0
  StepNears s = Must (λ r. Nears s.ota_status r.1.ota_status)

  plain_step-Nears :
      (check : Bool) (s : Ota) (h : History)
      → s.ota_status ≢ idle
      → is_cancellable s.ota_status ≡ false
      → StepNears s (plain_step env check s h).0
  unfolding plain_step next
  plain_step-Nears check s h ne c =
      let st = s.ota_status in
      ground (
        arith,
        Nears-Follows st _ (next-Follows env false s st h ne),
        next_status_of-Completes env s st h c,
      )

  late_step-Nears :
      (check : Bool) (s : Ota) (h : History)
      → s.ota_status ≢ idle
      → is_cancellable s.ota_status ≡ false
      → StepNears s (late_step env check s h).0
  unfolding late_step
  late_step-Nears false s h ne c = plain_step-Nears false s h ne c
  late_step-Nears true s h ne c = elim (Bool-cases (env.is_cancelled (poll_cancel ∷ h))) [
    | inl now ↦ rw now (plain_step-Nears false s _ ne c)
    | inr not ↦ rw not (plain_step-Nears true s _ ne c)
  ]

  guarded_step-Nears :
      (check : Bool) (s : Ota) (h : History)
      → is_cancellable s.ota_status ≡ true
      → StepNears s (guarded_step env check s h).0
  unfolding guarded_step run_until_cancelled next
  guarded_step-Nears check s h c =
      let st = s.ota_status in
      let h' = poll_cancel ∷ h in
      ground (
        arith,
        failure-Nears st canceled c,
        Nears-Follows st _ (next-Follows env true s st h' (cancellable-ne-idle st c)),
      )

  advance-Nears :
      (check : Bool) (s : Ota) (h : History)
      → s.ota_status ≢ idle
      → StepNears s (advance env check s h).0
  unfolding advance
  advance-Nears check s h ne = elim (Bool-cases (is_cancellable s.ota_status)) [
    | inl c ↦ rw c (guarded_step-Nears check s _ c)
    | inr c ↦ rw c (late_step-Nears check s _ ne c)
  ]

  -- With more rounds than steps left, the loop ends in `Idle`, or it waits for the reboot.
  update_loop-Ends :
      (fuel : ℕ) (check : Bool) (s : Ota) (h : History)
      → (is_waiting s.ota_status ≡ true) ⊎ (rank s.ota_status < fuel)
      → Must Ends (update_loop env fuel check s h).0
  unfolding update_loop
  update_loop-Ends zero check s h w = ground arith
  update_loop-Ends (suc fuel) check s h w = elim (Bool-cases (is_idle s.ota_status)) [
    | inl e ↦ rw (e, Must) (is_idle-eq s.ota_status e, rw e)
    | inr e ↦
        rw (e, Must)
          (Must-bind (λ r. Nears s.ota_status r.1.ota_status) Ends
            (advance env check (mark_progress s)) _ h
            (advance-Nears check (mark_progress s) h (ne-idle s.ota_status e))
            (λ r h' n.
              update_loop-Ends fuel r.0 r.1 h' (closer s.ota_status r.1.ota_status fuel w n)))
  ]

  pub clear-idle :
      (s : Ota) (h : History)
      → Must (λ s'. (s'.ota_status ≡ idle) × (s'.flag ≡ s.flag)) (clear env s h).0
  unfolding clear
  clear-idle s h = ground arith

  close-Ends : (l : Loop) (h : History) → Ends l → Must Ends (close env l h).0
  unfolding close
  close-Ends (finished s) h w = ground (arith, clear-idle s (publish s.ota_status ∷ h))
  close-Ends (running s) h w = w

  -- From any status and with eight rounds, `handle_ota_update` either returns with the status `Idle`
  -- and the flag off, or after its rounds it is in the loop that waits for the reboot; it stops in no
  -- other way, whatever the outside answers and whenever the token is cancelled.
  pub handle_ota_update-Ends :
      (fuel : ℕ) (s : Ota) (h : History) → 8 ≤ fuel → Must Ends (handle_ota_update env fuel s h).0
  unfolding handle_ota_update
  handle_ota_update-Ends fuel s h k =
      Must-bind Ends Ends (update_loop env fuel true s) (close env) h
        (update_loop-Ends fuel true s h (inr (enough s.ota_status fuel k)))
        (λ l h' e. close-Ends l h' e)
