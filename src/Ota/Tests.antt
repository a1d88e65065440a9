-- ===== src/Ota/Tests.antt =====
-- The theorems on the update at concrete inputs, and runs of the model.

use mathlib.Core.Option.{some-injective}
use edgehog_device_runtime.Base.{
  ◌+◌, ◌*◌, ◌-◌, ◌/◌, ◌≤◌, ◌==◌, ==_iff, leb, ◌≡◌, refl, subst, true, false, Option, none, some,
  List, [], ◌∷◌, All, arith, ok, pos, Must, length, onto,
}
use edgehog_device_runtime.Ota.Status.{
  is_cancellable, DeployStatus, progress, completed, OtaId, idle, init, deployed, success,
  acknowledged,
}
use edgehog_device_runtime.Ota.Event.{as_event}
use edgehog_device_runtime.Ota.Event.Reports.{Describes, as_event-Describes}
use edgehog_device_runtime.Ota.Env.{Env, F64, FilePath, Response, join}
use edgehog_device_runtime.Ota.Wget.{
  wget, fetch, save_body, copy_body, take_chunk, report_progress, total_size,
}
use edgehog_device_runtime.Ota.Wget.Body.{IsExact, Ok, Saved, wget-Saved, bytes}
use edgehog_device_runtime.Ota.Wget.Cost.{install_count}
use edgehog_device_runtime.Ota.Update.{
  Ota, external, download, deploy, install, follow_install, fold_status, installed, get_install_uri,
  is_due, check_reboot, get_update_file_path,
}
use edgehog_device_runtime.Ota.Update.Slots.{last_written, restored, verdict, check_reboot-deploy}
use edgehog_device_runtime.Ota.Update.Reports.{report_count, InRange, deploy-report_count}
use edgehog_device_runtime.Ota.Update.Retry.{Within, download-Within}
use edgehog_device_runtime.Ota.Machine.{
  with_status, next_status_of, run_until_cancelled, update_loop, handle_ota_update, initialize,
}
use edgehog_device_runtime.Ota.Machine.Diagram.{Follows, next-Follows}
use edgehog_device_runtime.Ota.Machine.Termination.{Ends, handle_ota_update-Ends}
use edgehog_device_runtime.Ota.Machine.Restart.{IsClosed, initialize-IsClosed}
use edgehog_device_runtime.Ota.Machine.Installs.{handle_ota_update-installs, update_loop-cancelled}
use edgehog_device_runtime.Ota.Handler.{OtaRequest, update, cancel, start}
use edgehog_device_runtime.Ota.Handler.Queue.{
  Event, request, write_flag, run, room, freed, run-room,
}
use edgehog_device_runtime.Ota.Handler.Tokens.{IsConsistent, run-start-IsConsistent}

-- whole numbers for `f64`
abbrev whole : F64
whole = record {
  of_u64 = λ n. n;
  add = ◌+◌;
  sub = ◌-◌;
  mul = λ a b. a;
  div = λ a b. a * 100 / b;
  eq = ◌==◌;
  ge = λ a b. leb b a;
  to_i32 = pos;
}

abbrev image : Response
image = record {
  content_length = some 3;
  chunks = some (7 ∷ 8 ∷ []) ∷ some [] ∷ some (9 ∷ []) ∷ [];
}

abbrev signals : List (Option DeployStatus)
signals =
    some (progress (record { percentage = pos 50; message = "half" }))
    ∷ some (completed (pos 0))
    ∷ []

-- an outside where all goes well
abbrev willing : Env
willing = record {
  install_bundle = λ h. true;
  last_error = λ h. none;
  info = λ h. some (record { compatible = "board"; version = "1" });
  operation = λ h. some "idle";
  compatible = λ h. some "board";
  boot_slot = λ h. some "A";
  receive_completed = λ h. some signals;
  get_primary = λ h. some "rootfs.0";
  mark = λ h. some ("rootfs.0", "marked");
  repo_exists = λ h. false;
  repo_read = λ h. none;
  repo_write = λ h. true;
  repo_clear = λ h. true;
  tls_config = λ h. true;
  http_client = λ h. true;
  http_get = λ h. some image;
  file_exists = λ h. false;
  remove_file = λ h. true;
  create_file = λ h. true;
  write_chunk = λ h. true;
  reboot_now = λ h. true;
  is_cancelled = λ h. false;
  path_debug = λ p. p.text;
  decimal = λ n. "n";
  f64 = whole;
}

abbrev id : OtaId
id = record { uuid = 5; url = "http://ota.bin" }

-- the state file after the reboot, which came up in the other slot
abbrev restarted : Env
restarted = record willing {
  repo_exists = λ h. true;
  repo_read = λ h. some (record { uuid = 5; slot = "A" });
  boot_slot = λ h. some "B";
}

abbrev device : Ota
device = record {
  config = record { enabled = true; reboot = external; streaming = false };
  download_file_path = record { text = "/data"; is_utf8 = true };
  ota_status = init id;
  flag = true;
}

abbrev resting : Ota
resting = record device { ota_status = idle; flag = false }

handle_ota_update-Ends_example : Must Ends (handle_ota_update willing 8 device []).0
handle_ota_update-Ends_example = handle_ota_update-Ends willing 8 device [] (omega arith)

-- The token is cancelled before anything is downloaded.
abbrev cancelling : Env
cancelling = record willing { is_cancelled = λ _. true }

update_loop-cancelled_example :
    install_count (update_loop cancelling 9 true (with_status device (acknowledged id)) []).1 ≤ 0
unfolding install_count run_until_cancelled is_cancellable
update_loop-cancelled_example =
    update_loop-cancelled cancelling 8 true (with_status device (acknowledged id)) [] refl refl

handle_ota_update-installs_example : install_count (handle_ota_update willing 9 device []).1 ≤ 0 + 1
unfolding install_count
handle_ota_update-installs_example = handle_ota_update-installs willing 9 device []

deploys : (deploy willing false device id []).0 ≡ ok (deployed id)
unfolding deploy install follow_install fold_status installed is_due get_install_uri
    get_update_file_path join
deploys = refl

check_reboot-deploy_example :
    (check_reboot restarted false []).0 ≡ ok (verdict (restored id) "A" "B" "rootfs.0" "rootfs.0")
unfolding deploy install follow_install fold_status installed is_due get_install_uri
    get_update_file_path join last_written
check_reboot-deploy_example =
    check_reboot-deploy willing restarted device id [] [] "A" "B" "rootfs.0" "rootfs.0" "marked"
      refl deploys refl refl refl refl refl

next-Follows_example :
    Follows (acknowledged id) (next_status_of willing true device (acknowledged id) []).0
next-Follows_example = next-Follows willing true device (acknowledged id) [] (λ e. cc)

initialize-IsClosed_example : Must IsClosed (initialize restarted 3 resting []).0
initialize-IsClosed_example = initialize-IsClosed restarted 3 resting [] (omega arith) refl

whole-IsExact : IsExact whole
whole-IsExact = record { add_exact = λ a b k. refl; eq_exact = λ a b j k e. (==_iff a b).0 e }

abbrev target : FilePath
target = record { text = "/data/update.bin"; is_utf8 = true }

saves : Ok (wget willing false id target []).0
unfolding wget fetch save_body copy_body take_chunk report_progress total_size
saves = refl

wget-Saved_example : Saved willing image 3 (wget willing false id target []).1
unfolding bytes total_size
wget-Saved_example =
    wget-Saved willing image 3 id target [] whole-IsExact (omega arith, omega arith) (λ h. refl)
      refl saves

download-Within_example : Within 5 62 [] (download willing true device id []).1
download-Within_example = download-Within willing true device id []

deploy-report_count_run : report_count (deploy willing false device id []).1 ≤ report_count [] + 10
deploy-report_count_run =
    deploy-report_count willing device id []
      (λ h items e. subst (λ l. All InRange l) (some-injective signals items e) (omega arith))

as_event-Describes_run : Describes (λ u. "u") (success id) (as_event (λ u. "u") (success id))
as_event-Describes_run = as_event-Describes (λ u. "u") (success id) (λ u. refl)

abbrev first : OtaRequest
first = record { operation = update; url = "http://a"; uuid = 1 }

abbrev second : OtaRequest
second = record { operation = update; url = "http://b"; uuid = 2 }

abbrev events : List Event
events =
    request first
    ∷ request second
    ∷ request (record first { operation = cancel })
    ∷ request second
    ∷ write_flag false
    ∷ request first
    ∷ []

run-room_example :
    length (run start events).queue + room (run start events)
    ≤ length start.queue + room start + freed events
run-room_example = run-room start events

run-start-IsConsistent_example : IsConsistent (onto events []) (run start events)
run-start-IsConsistent_example = run-start-IsConsistent events
