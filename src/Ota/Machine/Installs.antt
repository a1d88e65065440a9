-- ===== src/Ota/Machine/Installs.antt =====
-- How often an update installs: the calls of `install_bundle` under `handle_ota_update` of
-- src/ota/mod.rs.
use edgehog_device_runtime.Base.{
  ℕ, zero, suc, ◌+◌, ◌≤◌, ◌≡◌, ◌≢◌, refl, Bool, true, false, String, Option, none, some, List, [],
  ◌∷◌, arith, Result, ok, err, Bool-cases, inl, inr, continue,
}
use edgehog_device_runtime.Ota.Status.{
  DeployStatus, progress, completed, OtaId, OtaStatus, idle, rebooted, init, acknowledged,
  downloading, deploying, deployed, rebooting, failure, canceled, is_cancellable, ota_id,
}
use edgehog_device_runtime.Ota.Env.{Env, History, poll_cancel, publish, next_status}
use edgehog_device_runtime.Ota.Wget.Cost.{install_count}
use edgehog_device_runtime.Ota.Update.{
  Ota, fold_status, installed, follow_install, install, deploy, reboot, wait_reboot, do_pending_ota,
  check_reboot,
}
use edgehog_device_runtime.Ota.Update.Retry.{download-Within}
use edgehog_device_runtime.Ota.Machine.{
  Loop, finished, running, is_idle, mark_progress, with_status, next_status_of, next,
  run_until_cancelled, guarded_step, plain_step, late_step, advance, update_loop, clear, close,
  handle_ota_update,
}
use edgehog_device_runtime.Ota.Machine.Diagram
use edgehog_device_runtime.Ota.Machine.Diagram.{◌⟶◌, Follows, next-Follows}
use edgehog_device_runtime.Ota.Machine.Termination.{ne-idle}

-- The installations that a step from this status can start.
abbrev own : OtaStatus → ℕ
own (deploying _ _) = 1
own _ = 0

-- The installations that can still come.
abbrev pub to_come : OtaStatus → ℕ
to_come (init _) = 1
to_come (acknowledged _) = 1
to_come (downloading _ _) = 1
to_come (deploying _ _) = 1
to_come _ = 0

to_come-⟶ : {a b : OtaStatus} → a ⟶ b → to_come b + own a ≤ to_come a
to_come-⟶ Diagram.accept = omega arith
to_come-⟶ _ = omega arith

module _ (env : Env) (guarded : Bool) where
  fold_status-installs :
      (req : OtaId) (prev : DeployStatus) (items : List (Option DeployStatus)) (h : History)
      → install_count (fold_status env guarded req prev items h).1 ≡ install_count h
  unfolding fold_status install_count
  fold_status-installs req prev [] h = ground arith
  fold_status-installs req prev (none ∷ rest) h = ground arith
  fold_status-installs req prev (some (completed n) ∷ rest) h =
      ground (arith, fold_status-installs req (completed n) rest (next_status ∷ h))
  fold_status-installs req prev (some (progress p) ∷ rest) h = ground (
    arith,
    fold_status-installs req prev rest (next_status ∷ h),
    fold_status-installs req (progress p) rest (publish (deploying req p) ∷ next_status ∷ h),
  )

  installed-installs :
      (req : OtaId) (last : Option DeployStatus) (h : History)
      → install_count (installed env guarded req last h).1 ≡ install_count h
  unfolding installed install_count
  installed-installs req last h = ground arith

  follow_install-installs :
      (req : OtaId) (items : List (Option DeployStatus)) (h : History)
      → install_count (follow_install env guarded req items h).1 ≡ install_count h
  unfolding follow_install
  follow_install-installs req items h = grind (arith, fold_status-installs, installed-installs)

  install-installs :
      (req : OtaId) (uri : String) (h : History)
      → install_count (install env guarded req uri h).1 ≤ install_count h + 1
  unfolding install install_count
  install-installs req uri h = grind (arith, follow_install-installs)

  deploy-installs :
      (s : Ota) (req : OtaId) (h : History)
      → install_count (deploy env guarded s req h).1 ≤ install_count h + 1
  unfolding deploy install_count
  deploy-installs s req h = grind (arith, install-installs)

  reboot-installs :
      (s : Ota) (req : OtaId) (h : History)
      → install_count (reboot env guarded s req h).1 ≡ install_count h
  unfolding reboot install_count
  reboot-installs s req h = ground arith

  check_reboot-installs :
      (h : History) → install_count (check_reboot env guarded h).1 ≡ install_count h
  unfolding check_reboot do_pending_ota install_count
  check_reboot-installs h = ground arith

  wait_reboot-installs :
      (req : OtaId) (h : History)
      → install_count (wait_reboot env guarded req h).1 ≡ install_count h
  unfolding wait_reboot install_count
  wait_reboot-installs req h = ground arith

  next_status_of-installs :
      (s : Ota) (st : OtaStatus) (h : History)
      → install_count (next_status_of env guarded s st h).1 ≤ install_count h + own st
  unfolding next_status_of
  next_status_of-installs s (downloading req p) h =
      omega (arith, (download-Within env guarded s req h).2)
  next_status_of-installs s (deploying req p) h = deploy-installs s req h
  next_status_of-installs s (deployed req) h = omega (arith, reboot-installs s req h)
  next_status_of-installs s rebooted h = omega (arith, check_reboot-installs h)
  next_status_of-installs s (rebooting req) h = omega (arith, wait_reboot-installs req h)
  next_status_of-installs s _ h = omega arith

-- what can still come after a step, which may have been dropped
abbrev left : Result (Unit {0}) OtaStatus → ℕ
left (ok b) = to_come b
left (err _) = 0

left-Follows :
    (a : OtaStatus) (r : Result (Unit {0}) OtaStatus) → Follows a r → left r + own a ≤ to_come a
left-Follows a (ok b) e = to_come-⟶ e
left-Follows a (err _) e = ground arith

abbrev left_of_step : Result (Unit {0}) (Bool × Ota) → ℕ
left_of_step (ok (check, s)) = to_come s.ota_status
left_of_step (err _) = 0

module _ (env : Env) where
  next-spends :
      (guarded : Bool) (s : Ota) (st : OtaStatus) (h : History)
      → st ≢ idle
      → install_count (next_status_of env guarded s st h).1
          + left (next_status_of env guarded s st h).0
        ≤ install_count h + to_come st
  next-spends guarded s st h ne = omega (
    arith,
    next_status_of-installs env guarded s st h,
    left-Follows st _ (next-Follows env guarded s st h ne),
  )

  -- The installations so far and those to come grow at no round.
  abbrev Spends : Ota → History → Result (Unit {0}) (Bool × Ota) × History → Type 0
  Spends s h r = install_count r.1 + left_of_step r.0 ≤ install_count h + to_come s.ota_status

  plain_step-Spends :
      (check : Bool) (s : Ota) (h : History)
      → s.ota_status ≢ idle
      → Spends s h (plain_step env check s h)
  unfolding plain_step next
  plain_step-Spends check s h ne = ground (arith, next-spends false s s.ota_status h ne)

  late_step-Spends :
      (check : Bool) (s : Ota) (h : History)
      → s.ota_status ≢ idle
      → Spends s h (late_step env check s h)
  unfolding late_step install_count
  late_step-Spends false s h ne = plain_step-Spends false s h ne
  late_step-Spends true s h ne = ground (
    arith,
    plain_step-Spends true s (poll_cancel ∷ h) ne,
    plain_step-Spends false s (publish (failure canceled none) ∷ poll_cancel ∷ h) ne,
  )

  guarded_step-Spends :
      (check : Bool) (s : Ota) (h : History)
      → s.ota_status ≢ idle
      → Spends s h (guarded_step env check s h)
  unfolding guarded_step run_until_cancelled next install_count
  guarded_step-Spends check s h ne =
      ground (arith, next-spends true s s.ota_status (poll_cancel ∷ h) ne)

  advance-Spends :
      (check : Bool) (s : Ota) (h : History)
      → s.ota_status ≢ idle
      → Spends s h (advance env check s h)
  unfolding advance install_count
  advance-Spends check s h ne =
      let h' = publish s.ota_status ∷ h in
      ground (arith, guarded_step-Spends check s h' ne, late_step-Spends check s h' ne)

  -- the rounds that follow a step
  loop_tail :
      (fuel n : ℕ) (r : Result (Unit {0}) (Bool × Ota)) (h : History)
      → ((check : Bool) (s : Ota)
          → install_count (update_loop env fuel check s h).1
            ≤ install_count h + to_come s.ota_status)
      → install_count h + left_of_step r ≤ n
      → install_count (continue r (λ p. update_loop env fuel p.0 p.1) h).1 ≤ n
  loop_tail fuel n (ok (check, s)) h rest k = omega (arith, rest check s)
  loop_tail fuel n (err _) h rest k = omega arith

  update_loop-installs :
      (fuel : ℕ) (check : Bool) (s : Ota) (h : History)
      → install_count (update_loop env fuel check s h).1 ≤ install_count h + to_come s.ota_status
  unfolding update_loop
  update_loop-installs zero check s h = omega arith
  update_loop-installs (suc fuel) check s h = elim (Bool-cases (is_idle s.ota_status)) [
    | inl e ↦ rw (e, update_loop) (omega arith)
    | inr e ↦
        let (r, h') = advance env check (mark_progress s) h in
        rw (e, update_loop)
          (loop_tail fuel (install_count h + to_come s.ota_status) r h'
            (λ check' s'. update_loop-installs fuel check' s' h')
            (advance-Spends check (mark_progress s) h (ne-idle s.ota_status e)))
  ]

  close-installs : (l : Loop) (h : History) → install_count (close env l h).1 ≡ install_count h
  unfolding close clear install_count
  close-installs (finished s) h = ground arith
  close-installs (running s) h = refl

  cancellable-own : (st : OtaStatus) → is_cancellable st ≡ true → own st ≡ 0
  unfolding is_cancellable
  cancellable-own st h =
      elim st as (λ st. is_cancellable st ≡ true → own st ≡ 0) [
        | deploying req p ↦ λ h. absurd (cc)
        | _ ↦ λ h. refl
      ]
        h

  run_until_cancelled-installs :
      (s : Ota) (h : History)
      → is_cancellable s.ota_status ≡ true
      → install_count (run_until_cancelled env s h).1 ≤ install_count h
  unfolding run_until_cancelled next install_count
  run_until_cancelled-installs s h can = ground (
    arith,
    next_status_of-installs env true s s.ota_status (poll_cancel ∷ h),
    cancellable-own s.ota_status can,
  )

  guarded_step-dropped :
      (check : Bool) (s : Ota) (h : History)
      → (run_until_cancelled env s h).0 ≡ ok none
      → guarded_step env check s h ≡ (
        ok (false, with_status s (failure canceled (ota_id s.ota_status))),
        (run_until_cancelled env s h).1,
      )
  unfolding guarded_step
  guarded_step-dropped check s h e = rw e refl

  advance-dropped :
      (check : Bool) (s : Ota) (h : History)
      → is_cancellable s.ota_status ≡ true
      → (run_until_cancelled env s (publish s.ota_status ∷ h)).0 ≡ ok none
      → advance env check s h ≡ (
        ok (false, with_status s (failure canceled (ota_id s.ota_status))),
        (run_until_cancelled env s (publish s.ota_status ∷ h)).1,
      )
  unfolding advance
  advance-dropped check s h can e =
      rw can (guarded_step-dropped check s (publish s.ota_status ∷ h) e)

  -- When the step of a round is dropped by a cancellation, at a status that can be cancelled, no
  -- installation is started in this round or in any round after it, however many there are.
  pub update_loop-cancelled :
      (fuel : ℕ) (check : Bool) (s : Ota) (h : History)
      → is_cancellable s.ota_status ≡ true
      → (run_until_cancelled env (mark_progress s) (publish s.ota_status ∷ h)).0 ≡ ok none
      → install_count (update_loop env (suc fuel) check s h).1 ≤ install_count h
  unfolding update_loop install_count
  update_loop-cancelled fuel check s h can e = elim (Bool-cases (is_idle s.ota_status)) [
    | inl i ↦ rw (i, update_loop) (omega arith)
    | inr i ↦
        let h' = (run_until_cancelled env (mark_progress s) (publish s.ota_status ∷ h)).1 in
        rw (i, update_loop, advance-dropped check (mark_progress s) h can e)
          (omega (
            arith,
            update_loop-installs fuel false
                (with_status (mark_progress s) (failure canceled (ota_id s.ota_status))) h',
            run_until_cancelled-installs (mark_progress s) (publish s.ota_status ∷ h) can,
          ))
  ]

  -- An update that is under way installs once at most, and one that has failed or that comes from a
  -- reboot installs nothing, however long it runs.
  pub handle_ota_update-installs :
      (fuel : ℕ) (s : Ota) (h : History)
      → install_count (handle_ota_update env fuel s h).1 ≤ install_count h + to_come s.ota_status
  unfolding handle_ota_update
  handle_ota_update-installs fuel s h =
      grind (arith, update_loop-installs fuel true s h, close-installs)
