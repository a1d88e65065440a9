-- ===== src/Transfer/Store/Stored.antt =====
-- What a download to a file leaves, call by call: `download_store` and `download_filesystem` of
-- src/file_transfer/mod.rs.
use edgehog_device_runtime.Base.{◌≡◌, true, none, List, [], ◌∷◌, Result, ok}
use edgehog_device_runtime.Base.State.{Holds}
use edgehog_device_runtime.Transfer.Http
use edgehog_device_runtime.Transfer.Worker.{Report}
use edgehog_device_runtime.Transfer.Store.{
  Call, file_exists, open_handle, reserve_space, check_digest, cleanup, finalize, finalize_space,
  send_stored, write_chunks, queue_cleanup, World, Env,
}

module _ (env : Env) where
  -- The latest call is this one, without an error.
  abbrev pub HasPassed : Call → List Call → Type 0
  HasPassed c [] = ⊥
  HasPassed c (d ∷ calls) = (d ≡ c) × (env.result (d ∷ calls) ≡ none)

  abbrev pub HasWritten : List Call → Type 0
  HasWritten (write_chunks n ∷ calls) = env.result (write_chunks n ∷ calls) ≡ none
  HasWritten _ = ⊥

  -- What a call follows: the digest is checked after the whole body was written, and a file is put in
  -- its place after the digest was right. Then its space is checked, and it is announced after that.
  abbrev pub IsFollowing : Call → List Call → Type 0
  IsFollowing check_digest calls = HasWritten calls
  IsFollowing finalize calls = HasPassed check_digest calls
  IsFollowing finalize_space calls = HasPassed finalize calls
  IsFollowing send_stored calls = HasPassed finalize_space calls
  IsFollowing _ calls = Unit

  abbrev pub AllFollowing : List Call → Type 0
  AllFollowing [] = Unit
  AllFollowing (c ∷ calls) = IsFollowing c calls × AllFollowing calls

  -- The file is there: it was before, or it was put in its place.
  abbrev pub IsKept : List Call → Type 0
  IsKept (file_exists ∷ calls) = env.exists (file_exists ∷ calls) ≡ ok true
  IsKept (finalize ∷ calls) = env.result (finalize ∷ calls) ≡ none
  IsKept (finalize_space ∷ calls) = env.result (finalize_space ∷ calls) ≡ none
  IsKept (send_stored ∷ calls) = Unit
  IsKept (queue_cleanup ttl ∷ calls) = IsKept calls
  IsKept _ = ⊥

  -- No file is begun; or its space is refused, and the partial file is left there; or the removal of the
  -- partial file is called for, which leaves a file in place whose space is refused after it was put
  -- there; or the file is there, and its cleanup could not be queued.
  abbrev pub IsFailed : List Call → Type 0
  IsFailed (file_exists ∷ calls) = Unit
  IsFailed (open_handle ∷ calls) = Unit
  IsFailed (reserve_space ∷ calls) = HasPassed open_handle calls
  IsFailed (cleanup ∷ calls) = Unit
  IsFailed (queue_cleanup ttl ∷ calls) = IsKept calls
  IsFailed _ = ⊥

  -- The calls of code, with what its result says of the latest.
  abbrev pub After :
      {A : Type 0} → (List Call → Type 0) → (List Call → Type 0) → Result Report A × World → Type 0
  After P Q =
      Holds (λ _ w. AllFollowing w.calls × P w.calls) (λ _ w. AllFollowing w.calls × Q w.calls)

  abbrev Anything : List Call → Type 0
  Anything calls = Unit
