-- ===== src/Transfer/Store/Tests.antt =====
-- The theorem on downloads to a file at a concrete input, and runs of the model.
use edgehog_device_runtime.Base.{◌≡◌, refl, false, Option, none, some, List, [], ◌∷◌, ok, err}
use edgehog_device_runtime.Transfer.Http
use edgehog_device_runtime.Transfer.Http.{Response, Error}
use edgehog_device_runtime.Transfer.Worker.{Report}
use edgehog_device_runtime.Transfer.Store.{
  Download, Call, file_exists, open_handle, reserve_space, check_digest, finalize, finalize_space,
  send_stored, cleanup, create_write_handle, finalize_stored, digest_from_read, write_chunks,
  queue_cleanup, World, Env, download_length, then_err, call, lift_request, request, write_response,
  download_to_write_handle, or_cleanup, write_file, finalize_write, ask_exists, cleanup_after,
  send_then_cleanup, store_file, download_store,
}

abbrev whole : Response
whole = record { status = 200; content_length = []; content_range = []; body = 3 }

-- the digest is wrong
abbrev wrong_digest : List Call → Option Report
wrong_digest (check_digest ∷ _) = some 6
wrong_digest _ = none

abbrev env : Env
env = record {
  exists = λ _. ok false;
  current_size = λ _. 0;
  result = λ _. none;
  server = λ _. some whole;
  report = λ _. 1;
}

abbrev corrupt : Env
corrupt = record env { result = wrong_digest }

abbrev file : Download
file = record { file_size = 12; is_encoded = false; ttl = some 60 }

abbrev world : World
world = record { calls = []; requests = [] }

stores : download_store env file world ≡ (
  ok tt,
  record {
    calls =
        queue_cleanup 60
        ∷ send_stored
        ∷ finalize_space
        ∷ finalize
        ∷ check_digest
        ∷ write_chunks 12
        ∷ digest_from_read 0
        ∷ reserve_space
        ∷ open_handle
        ∷ file_exists
        ∷ [];
    requests = Http.get ∷ [];
  },
)
unfolding download_store ask_exists store_file call write_file download_to_write_handle request
    lift_request download_length write_response or_cleanup create_write_handle finalize_write
    finalize_stored send_then_cleanup cleanup_after Http.download Http.full_request
    Http.full_response Http.full_length Http.content_length_of Http.check_total Http.downloaded
stores = refl

cleans_up : (download_store corrupt file world).0 ≡ err 6
unfolding download_store ask_exists store_file call write_file download_to_write_handle request
    lift_request download_length write_response create_write_handle or_cleanup then_err
    Http.download Http.full_request Http.full_response Http.full_length Http.content_length_of
    Http.check_total Http.downloaded
cleans_up = refl

-- A file whose space is refused at the end stays in its place: only the partial file is removed.
abbrev no_space : List Call → Option Report
no_space (finalize_space ∷ _) = some 7
no_space _ = none

stays_in_place : download_store (record env { result = no_space }) file world ≡ (
  err 7,
  record {
    calls =
        cleanup
        ∷ finalize_space
        ∷ finalize
        ∷ check_digest
        ∷ write_chunks 12
        ∷ digest_from_read 0
        ∷ reserve_space
        ∷ open_handle
        ∷ file_exists
        ∷ [];
    requests = Http.get ∷ [];
  },
)
unfolding download_store ask_exists store_file call write_file download_to_write_handle request
    lift_request download_length write_response or_cleanup create_write_handle finalize_write
    finalize_stored then_err Http.download Http.full_request Http.full_response Http.full_length
    Http.content_length_of Http.check_total Http.downloaded
stays_in_place = refl
