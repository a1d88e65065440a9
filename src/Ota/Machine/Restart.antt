-- ===== src/Ota/Machine/Restart.antt =====
-- The actor's `init` of src/ota/mod.rs, after a reboot.
use edgehog_device_runtime.Base.{
  ℕ, zero, suc, ◌<◌, ◌≤◌, ◌≡◌, refl, Bool, true, false, arith, Result, ok, err, Bool-cases, inl,
  inr, When, Must, Must-bind, ◌∷◌, if◌then◌else◌,
}
use edgehog_device_runtime.Ota.Status.{
  OtaStatus, idle, no_pending_ota, rebooted, success, failure, is_cancellable,
}
use edgehog_device_runtime.Ota.Env.{Env, History, publish, poll_cancel, repo_exists}
use edgehog_device_runtime.Ota.Update.{Ota}
use edgehog_device_runtime.Ota.Machine.{
  Loop, finished, running, is_idle, mark_progress, next, plain_step, late_step, advance,
  update_loop, close, handle_ota_update, fresh_token, initialize,
}
use edgehog_device_runtime.Ota.Machine.Diagram
use edgehog_device_runtime.Ota.Machine.Diagram.{◌⟶◌, Follows, next-Follows, rank}
use edgehog_device_runtime.Ota.Machine.Termination.{
  next_status_of-Completes, is_idle-eq, ne-idle, clear-idle,
}

-- The statuses that follow a reboot.
abbrev is_settled : OtaStatus → Bool
is_settled idle = true
is_settled no_pending_ota = true
is_settled rebooted = true
is_settled (success _) = true
is_settled (failure _ _) = true
is_settled _ = false

abbrev Settles : OtaStatus → OtaStatus → Type 0
Settles a b = (is_settled b ≡ true) × (rank b < rank a)

Settles-⟶ : {a b : OtaStatus} → a ⟶ b → is_settled a ≡ true → Settles a b
Settles-⟶ Diagram.accept w = cc
Settles-⟶ _ w = ground arith

Settles-Follows :
    (a : OtaStatus) (r : Result (Unit {0}) OtaStatus)
    → is_settled a ≡ true
    → Follows a r
    → When (λ b. Settles a b) r
Settles-Follows a (ok b) w e = Settles-⟶ e w
Settles-Follows a (err _) w e = tt

settled-not_cancellable : (a : OtaStatus) → is_settled a ≡ true → is_cancellable a ≡ false
unfolding is_cancellable
settled-not_cancellable a w = ground arith

fewer : (a b : OtaStatus) (fuel : ℕ) → rank a < suc fuel → Settles a b → rank b < fuel
fewer a b fuel w n = omega arith

start_rank : (b : Bool) (fuel : ℕ) → 3 ≤ fuel → rank (if b then rebooted else idle) < fuel
start_rank b fuel k = ground arith

-- The loop's end: idle, with the flag off.
abbrev pub IsClosed : Loop → Type 0
IsClosed (finished s) = (s.ota_status ≡ idle) × (s.flag ≡ false)
IsClosed (running s) = ⊥

module _ (env : Env) where
  abbrev StepSettles : Ota → Result (Unit {0}) (Bool × Ota) → Type 0
  StepSettles s = Must (λ r. Settles s.ota_status r.1.ota_status)

  plain_step-Settles :
      (check : Bool) (s : Ota) (h : History)
      → is_settled s.ota_status ≡ true
      → is_idle s.ota_status ≡ false
      → StepSettles s (plain_step env check s h).0
  unfolding plain_step next
  plain_step-Settles check s h w e =
      let st = s.ota_status in
      ground (
        arith,
        Settles-Follows st _ w (next-Follows env false s st h (ne-idle st e)),
        next_status_of-Completes env s st h (settled-not_cancellable st w),
      )

  advance-Settles :
      (check : Bool) (s : Ota) (h : History)
      → is_settled s.ota_status ≡ true
      → is_idle s.ota_status ≡ false
      → StepSettles s (advance env check s h).0
  unfolding advance late_step
  advance-Settles false s h w e =
      rw (settled-not_cancellable s.ota_status w) (plain_step-Settles false s _ w e)
  advance-Settles true s h w e =
      rw (settled-not_cancellable s.ota_status w)
        (elim (Bool-cases (env.is_cancelled (poll_cancel ∷ publish s.ota_status ∷ h))) [
          | inl now ↦ rw now (plain_step-Settles false s _ w e)
          | inr not ↦ rw not (plain_step-Settles true s _ w e)
        ])

  update_loop-IsClosed :
      (fuel : ℕ) (check : Bool) (s : Ota) (h : History)
      → is_settled s.ota_status ≡ true
      → rank s.ota_status < fuel
      → Must IsClosed (update_loop env fuel check s h).0
  unfolding update_loop
  update_loop-IsClosed zero check s h w k = elim k [ ]
  update_loop-IsClosed (suc fuel) check s h w k = elim (Bool-cases (is_idle s.ota_status)) [
    | inl e ↦ rw (e, Must) (is_idle-eq s.ota_status e, rw e)
    | inr e ↦
        rw (e, Must)
          (Must-bind (λ r. Settles s.ota_status r.1.ota_status) IsClosed
            (advance env check (mark_progress s)) _ h
            (advance-Settles check (mark_progress s) h w e)
            (λ r h' n.
              update_loop-IsClosed fuel r.0 r.1 h' n.0
                (fewer s.ota_status r.1.ota_status fuel k n)))
  ]

  close-IsClosed : (l : Loop) (h : History) → IsClosed l → Must IsClosed (close env l h).0
  unfolding close
  close-IsClosed (finished s) h w = ground (arith, clear-idle env s (publish s.ota_status ∷ h))
  close-IsClosed (running s) h w = absurd w

  handle_ota_update-IsClosed :
      (fuel : ℕ) (s : Ota) (h : History)
      → is_settled s.ota_status ≡ true
      → rank s.ota_status < fuel
      → Must IsClosed (handle_ota_update env fuel s h).0
  unfolding handle_ota_update
  handle_ota_update-IsClosed fuel s h w k =
      Must-bind IsClosed IsClosed (update_loop env fuel true s) (close env) h
        (update_loop-IsClosed fuel true s h w k) close-IsClosed

-- Started from `Idle`, the actor's `init` returns after three rounds at most, with the status `Idle`
-- and the flag off, whatever the outside answers.
pub initialize-IsClosed :
    (env : Env) (fuel : ℕ) (s : Ota) (h : History)
    → 3 ≤ fuel
    → s.ota_status ≡ idle
    → Must IsClosed (initialize env fuel s h).0
unfolding initialize
initialize-IsClosed env fuel s h k e = elim (Bool-cases (env.repo_exists (repo_exists ∷ h))) [
  | inl b ↦ rw b (handle_ota_update-IsClosed (fresh_token env) fuel _ _ refl k)
  | inr b ↦ rw b (handle_ota_update-IsClosed (fresh_token env) fuel s _ (rw e) (rw e (omega arith)))
]
