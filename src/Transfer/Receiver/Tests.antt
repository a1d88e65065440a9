-- ===== src/Transfer/Receiver/Tests.antt =====
-- The theorems on the receiver at concrete inputs, and runs of the model.
use edgehog_device_runtime.Base.{
  ℕ, zero, suc, ◌≡◌, refl, sym, ap, false, Option, none, some, List, [], ◌∷◌, ok,
}
use edgehog_device_runtime.Transfer.Errno.{to_errno}
use edgehog_device_runtime.Transfer.Worker
use edgehog_device_runtime.Transfer.Worker.{Direction, download, upload, Request, next_request}
use edgehog_device_runtime.Transfer.Receiver.{
  Message, query, notify_one, respond, World, Env, job_with, job_of, validate_job, validated,
  fail_job, handle_backpressure, inserted, handle_job, handle,
}
use edgehog_device_runtime.Transfer.Receiver.Hands.{handle-next_request}

-- the id 0 is not valid
abbrev parse_id : Direction → ℕ → ℕ → Option Request
parse_id d zero fields = none
parse_id d (suc n) fields = some (record { direction = d; id = suc n; payload = fields })

abbrev env : Env
env = record {
  parse = λ m. parse_id m.direction m.id m.fields;
  encode = λ d payload. some (payload ∷ []);
  database = λ _. none;
}

-- a database that fails
abbrev broken : Env
broken = record env { database = λ _. some 3 }

abbrev first_byte : List ℕ → Option ℕ
first_byte [] = none
first_byte (n ∷ _) = some n

abbrev worker : Worker.Env
worker = record {
  database = λ _. none;
  decode = λ d bytes. first_byte bytes;
  transfer = λ _. ok tt;
  send = λ _. none;
  is_cancelled = λ _. false;
}

abbrev message : ℕ → Message
message n = record { direction = upload; id = n; fields = 8 }

abbrev world : World
world = record { table = []; calls = [] }

-- The worker is notified although nothing was inserted.
notifies_broken :
    handle broken 1 (message 5) world
    ≡ record { table = []; calls = notify_one ∷ respond upload 5 16 ∷ query ∷ [] }
unfolding handle validate_job validated job_of job_with handle_job inserted handle_backpressure
    to_errno
notifies_broken = refl

refuses_invalid :
    handle env 1 (message 0) world ≡ record { table = []; calls = respond upload 0 22 ∷ [] }
unfolding handle validate_job validated handle_job fail_job to_errno
refuses_invalid = refl

first_encoded :
    (d : Direction) (payload : ℕ) (bytes : List ℕ)
    → env.encode d payload ≡ some bytes
    → first_byte bytes ≡ some payload
first_encoded d payload bytes e = let p : payload ∷ [] ≡ bytes = cc in sym (ap first_byte p)

handle-next_request_example :
    (next_request worker (record { table = (handle env 1 (message 5) world).table; calls = [] })).0
    ≡ ok (some (record { direction = upload; id = 5; payload = 8 }))
handle-next_request_example =
    handle-next_request env worker 1 (message 5)
      (record { direction = upload; id = 5; payload = 8 }) (8 ∷ []) world [] refl refl
      (λ d payload bytes e. first_encoded d payload bytes e) (tt, refl) refl refl
