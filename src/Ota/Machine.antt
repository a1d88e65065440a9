-- ===== src/Ota/Machine.antt =====
-- The state machine of an update: `next`, `handle_ota_update`, `clear`, and the actor's `init` and
-- `handle` of src/ota/mod.rs.
pub mod Diagram
pub mod Termination
pub mod Restart
pub mod Installs
use edgehog_device_runtime.Base.{
  ℕ, zero, suc, Bool, true, false, not, Option, none, some, if◌then◌else◌, ok, err, pure, call,
  ◌>>=◌, ◌>>◌,
}
use edgehog_device_runtime.Ota.Status.{
  canceled, inconsistent_state, OtaId, OtaStatus, idle, no_pending_ota, rebooted, init,
  acknowledged, downloading, deploying, deployed, rebooting, success, error, failure,
  is_cancellable, ota_id,
}
use edgehog_device_runtime.Ota.Env.{
  Env, Run, await, repo_exists, repo_clear, file_exists, remove_file, publish, poll_cancel,
}
use edgehog_device_runtime.Ota.Wget.{Fallible}
use edgehog_device_runtime.Ota.Update.{
  Ota, get_update_file_path, start_update, download, deploy, reboot, wait_reboot, check_reboot,
}

unfoldable pub is_idle : OtaStatus → Bool
is_idle idle = true
is_idle _ = false

abbrev pub with_status : Ota → OtaStatus → Ota
with_status s status = record s { ota_status = status }

-- `is_ota_in_progress` also writes the flag.
abbrev pub mark_progress : Ota → Ota
mark_progress s = record s { flag = not (is_idle s.ota_status) }

-- Where the loop stands when it ends, or when the fuel does.
pub data Loop : Type 0 where
  finished running : Ota → Loop

module _ (env : Env) where
  unfoldable pub next_status_of : Bool → Ota → OtaStatus → Run OtaStatus
  next_status_of guarded s (init req) = pure (acknowledged req)
  next_status_of guarded s (acknowledged req) = pure (start_update s req)
  next_status_of guarded s (downloading req _) = download env guarded s req
  next_status_of guarded s (deploying req _) = deploy env guarded s req
  next_status_of guarded s (deployed req) = reboot env guarded s req
  next_status_of guarded s rebooted = check_reboot env guarded
  next_status_of guarded s (rebooting req) = wait_reboot env guarded req
  next_status_of guarded s (error e req) = pure (failure e (some req))
  next_status_of guarded s idle = pure idle
  next_status_of guarded s no_pending_ota = pure idle
  next_status_of guarded s (success _) = pure idle
  next_status_of guarded s (failure _ _) = pure idle

  unfoldable pub next : Bool → Ota → Run Ota
  next guarded s = do status ← next_status_of guarded s s.ota_status; pure (with_status s status)

  -- A send to the publisher; that it has gone is only logged.
  abbrev pub publish_status : OtaStatus → Run (Unit {0})
  publish_status status = await env false (publish status) (λ _. tt)

  -- `cancel.run_until_cancelled(self.next())`: `none` where the future was dropped
  unfoldable pub run_until_cancelled : Ota → Run (Option Ota)
  run_until_cancelled s = do
    cancelled ← call poll_cancel env.is_cancelled
    elim cancelled [
      | true ↦ pure none
      | false ↦ λ h.
          let (o, h') = next true s h in
          elim o [ ok s' ↦ (ok (some s'), h') | err _ ↦ (ok none, h') ]
    ]

  unfoldable pub guarded_step : Bool → Ota → Run (Bool × Ota)
  guarded_step check s = do
    step ← run_until_cancelled s
    pure (elim step [
      | some s' ↦ (check, s')
      | none ↦ (false, with_status s (failure canceled (ota_id s.ota_status)))
    ])

  unfoldable pub plain_step : Bool → Ota → Run (Bool × Ota)
  plain_step check s = do s' ← next false s; pure (check, s')

  -- A status that is no longer cancellable: a cancellation is answered once, and the step is taken.
  unfoldable pub late_step : Bool → Ota → Run (Bool × Ota)
  late_step false s = plain_step false s
  late_step true s = do
    cancelled ← call poll_cancel env.is_cancelled
    elim cancelled [
      | true ↦ (do publish_status (failure canceled none); plain_step false s)
      | false ↦ plain_step true s
    ]

  -- One round of the loop's body
  unfoldable pub advance : Bool → Ota → Run (Bool × Ota)
  advance check s = do
    publish_status s.ota_status
    elim (is_cancellable s.ota_status) [ true ↦ guarded_step check s | false ↦ late_step check s ]

  -- The `while` loop on fuel.
  unfoldable pub update_loop : ℕ → Bool → Ota → Run Loop
  update_loop zero check s = pure (running s)
  update_loop (suc fuel) check s = elim (is_idle s.ota_status) [
    | true ↦ pure (finished (mark_progress s))
    | false ↦ (do (check', s') ← advance check (mark_progress s); update_loop fuel check' s')
  ]

  -- Both results are only logged.
  unfoldable pub clear : Ota → Run Ota
  clear s = do
    stored ← await env false repo_exists env.repo_exists
    (elim stored [ true ↦ await env false repo_clear (λ _. tt) | false ↦ pure tt ])
    image ← call (file_exists (get_update_file_path s)) env.file_exists
    (elim image [
      | true ↦ await env false (remove_file (get_update_file_path s)) (λ _. tt)
      | false ↦ pure tt
    ])
    pure (with_status s idle)

  -- What follows the loop: the final status is published.
  unfoldable pub close : Loop → Run Loop
  close (running s) = pure (running s)
  close (finished s) = do publish_status s.ota_status; s' ← clear s; pure (finished s')

  unfoldable pub handle_ota_update : ℕ → Ota → Run Loop
  handle_ota_update fuel s = do end ← update_loop fuel true s; close end

  -- `Err` stops the actor.
  unfoldable pub handle : ℕ → Ota → OtaId → Run (Fallible Loop)
  handle fuel s id = elim (is_idle s.ota_status) [
    | false ↦ pure (err inconsistent_state)
    | true ↦ (do end ← handle_ota_update fuel (with_status s (init id)); pure (ok end))
  ]

-- After a reboot: the token is a new one, which nothing cancels.
abbrev fresh_token : Env → Env
fresh_token env = record env { is_cancelled = λ _. false }

unfoldable pub initialize : Env → ℕ → Ota → Run Loop
initialize env fuel s = do
  pending ← await env false repo_exists env.repo_exists
  handle_ota_update (fresh_token env) fuel (if pending then with_status s rebooted else s)
