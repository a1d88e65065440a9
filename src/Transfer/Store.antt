-- ===== src/Transfer/Store.antt =====
-- A download to a file: `download_store`, `download_filesystem` and `download_to_write_handle` of
-- src/file_transfer/mod.rs, over the requests of src/file_transfer/http/mod.rs. What is done with the
-- file, its digest and the queue of cleanups is a call that succeeds or fails.
pub mod Stored
mod Tests
use edgehog_device_runtime.Base.{
  ℕ, Bool, true, false, Option, none, some, List, [], ◌∷◌, Result, ok, err,
}
use edgehog_device_runtime.Base.State.{Stateful, give, ◌>>=◌, ◌>>◌}
use edgehog_device_runtime.Transfer.Http
use edgehog_device_runtime.Transfer.Http.{Downloaded}
use edgehog_device_runtime.Transfer.Worker.{Report}

-- The fields of `Download` that are read here. A file that is encoded has another length on the way.
pub record Download : Type 0 where
  pub file_size : ℕ
  pub is_encoded : Bool
  pub ttl : Option ℕ

pub data Call : Type 0 where
  file_exists open_handle reserve_space check_digest cleanup finalize finalize_space send_stored :
      Call
  digest_from_read write_chunks queue_cleanup : ℕ → Call

pub record World : Type 0 where
  pub calls : List Call
  pub requests : List Http.Call

pub record Env : Type 0 where
  pub exists : List Call → Result Report Bool
  -- the size of the partial file
  pub current_size : List Call → ℕ
  pub result : List Call → Option Report
  pub server : Http.Env
  -- the report of an error of a request
  pub report : Http.Error → Report

abbrev pub Run : Type 0 → Type 0
Run A = Stateful World Report A

abbrev pub record_call : Call → World → World
record_call c w = record w { calls = c ∷ w.calls }

abbrev answered : Option Report → Result Report (Unit {0})
answered none = ok tt
answered (some e) = err e

unfoldable pub download_length : Download → Option ℕ
download_length d = elim d.is_encoded [ true ↦ none | false ↦ some d.file_size ]

abbrev pub limit_of : Download → Option ℕ → ℕ
limit_of d none = d.file_size
limit_of d (some total) = total

-- an error that is returned after the file is cleaned up, if that succeeds
unfoldable pub then_err :
    {A : Type 0} → Report → Result Report (Unit {0}) × World → Result Report A × World
then_err e (ok _, w) = (err e, w)
then_err e (err e', w) = (err e', w)

module _ (env : Env) where
  unfoldable pub call : Call → Run (Unit {0})
  call c w = let w' = record_call c w in (answered (env.result w'.calls), w')

  unfoldable pub lift_request :
      Result Http.Error Downloaded × List Http.Call → World → Result Report Downloaded × World
  lift_request (ok d, requests) w = (ok d, record w { requests = requests })
  lift_request (err e, requests) w = (err (env.report e), record w { requests = requests })

  unfoldable pub request : Download → Run Downloaded
  request d w =
      lift_request
        (Http.download env.server (env.current_size w.calls) (download_length d) w.requests) w

  unfoldable pub write_response : Download → Downloaded → Run (Unit {0})
  write_response d r = do
    call (digest_from_read r.start)
    call (write_chunks (limit_of d r.total_length))
    call check_digest

  unfoldable pub download_to_write_handle : Download → Run (Unit {0})
  download_to_write_handle d = do response ← request d; write_response d response

  -- an error is returned after the cleanup
  unfoldable pub or_cleanup : Result Report (Unit {0}) × World → Result Report (Unit {0}) × World
  or_cleanup (ok _, w) = (ok tt, w)
  or_cleanup (err e, w) = then_err e (call cleanup w)

  unfoldable pub write_file : Download → Run (Unit {0})
  write_file d w = or_cleanup (download_to_write_handle d w)

  -- `FileStorage::create_write_handle`: an error of the space leaves the partial file that is opened.
  unfoldable pub create_write_handle : Run (Unit {0})
  create_write_handle = do call open_handle; call reserve_space

  -- `FileStorage::finalize_write`: the file is put in its place before the space is checked.
  unfoldable pub finalize_write : Run (Unit {0})
  finalize_write = do call finalize; call finalize_space

  unfoldable pub finalize_stored : Run (Unit {0})
  finalize_stored w = or_cleanup (finalize_write w)

  -- `WriteHandle::finalize` of a path, which has no reserved space
  unfoldable pub finalize_path : Run (Unit {0})
  finalize_path w = or_cleanup (call finalize w)

  unfoldable pub ask_exists : Run Bool
  ask_exists w = let w' = record_call file_exists w in (env.exists w'.calls, w')

  unfoldable pub cleanup_after : Option ℕ → Run (Unit {0})
  cleanup_after none w = (ok tt, w)
  cleanup_after (some ttl) w = call (queue_cleanup ttl) w

  -- an error of the send is only logged
  unfoldable pub send_then_cleanup : Download → Run (Unit {0})
  send_then_cleanup d w = cleanup_after d.ttl (call send_stored w).1

  unfoldable pub store_file : Download → Bool → Run (Unit {0})
  store_file d true w = cleanup_after d.ttl w
  store_file d false w =
      (do create_write_handle; write_file d; finalize_stored; send_then_cleanup d) w

  unfoldable pub download_store : Download → Run (Unit {0})
  download_store d = do exists ← ask_exists; store_file d exists

  unfoldable pub write_path : Download → Bool → Run (Unit {0})
  write_path d true w = (ok tt, w)
  write_path d false w = (do call open_handle; write_file d; finalize_path; give tt) w

  unfoldable pub download_filesystem : Download → Run (Unit {0})
  download_filesystem d = do exists ← ask_exists; write_path d exists
