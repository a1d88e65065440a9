-- ===== src/Transfer/Receiver/Hands.antt =====
-- From the receiver of src/file_transfer/mod.rs through the queue to its worker.
use edgehog_device_runtime.Base.{
  ℕ, ◌≡◌, refl, Bool, true, false, any, none, some, List, [], ◌∷◌, ◌++◌, All, ok,
}
use edgehog_device_runtime.Jobs.{
  pending, in_progress, with_status, file_transfer, Row, Table, first_by, take, next_job,
  insert_job, is_free, created, has_key,
}
use edgehog_device_runtime.Transfer.Worker
use edgehog_device_runtime.Transfer.Worker.{
  Direction, download, upload, Request, Report, tag_of, direction_of_tag, request_of, next_request,
  to_request,
}
use edgehog_device_runtime.Transfer.Receiver
use edgehog_device_runtime.Transfer.Receiver.{
  Message, job_with, job_of, validate_job, validated, handle_job, handle, inserted,
}

direction_back : (d : Direction) → direction_of_tag (tag_of d) ≡ some d
direction_back download = refl
direction_back upload = refl

first_by-append :
    (test : Row → Bool) (t : Table) (r : Row)
    → All (λ q. test q ≡ false) t
    → test r ≡ true
    → first_by test created (t ++ (r ∷ [])) ≡ some r
unfolding first_by
first_by-append test [] r h e = rw e refl
first_by-append test (q ∷ t) r (other, h) e = rw (other, first_by-append test t r h e) refl

-- the row of a request in the queue
abbrev queued : ℕ → Request → List ℕ → Row
queued now r bytes = record {
  job = record {
    id = r.id;
    job_type = file_transfer;
    tag = tag_of r.direction;
    status = pending;
    version = 0;
    schedule_at = none;
    bytes = bytes;
  };
  created_at = now;
}

module _ (receiver : Receiver.Env) (worker : Worker.Env) where
  -- What is encoded for the queue is decoded by the worker.
  abbrev pub IsCodec : Type 0
  IsCodec =
      (d : Direction) (payload : ℕ) (bytes : List ℕ)
      → receiver.encode d payload ≡ some bytes
      → worker.decode d bytes ≡ some payload

  -- No transfer is pending, and none has the key of the request.
  abbrev pub IsIdle : Request → Table → Type 0
  IsIdle r t =
      All (λ row. is_free file_transfer row ≡ false) t
      × (any (has_key r.id file_transfer (tag_of r.direction)) t ≡ false)

  handle-table :
      (now : ℕ) (m : Message) (r : Request) (bytes : List ℕ) (w : Receiver.World)
      → receiver.parse m ≡ some r
      → receiver.encode r.direction r.payload ≡ some bytes
      → any (has_key r.id file_transfer (tag_of r.direction)) w.table ≡ false
      → receiver.database (Receiver.query ∷ w.calls) ≡ none
      → (handle receiver now m w).table ≡ w.table ++ (queued now r bytes ∷ [])
  unfolding handle validate_job validated job_of job_with handle_job inserted insert_job
  handle-table now m r bytes w parses encodes fresh stores =
      rw (parses, encodes, stores, fresh) refl

  next_request-first :
      (row : Row) (r : Request) (t : Table) (calls : List Worker.Call)
      → worker.database (Worker.query ∷ calls) ≡ none
      → first_by (is_free file_transfer) created t ≡ some row
      → request_of worker (with_status in_progress row).job ≡ some r
      → (next_request worker (record { table = t; calls = calls })).0 ≡ ok (some r)
  unfolding next_request next_job take to_request
  next_request-first row r t calls answers first same = rw (answers, first, same) refl

  request_of-queued :
      (now : ℕ) (r : Request) (bytes : List ℕ)
      → worker.decode r.direction bytes ≡ some r.payload
      → request_of worker (with_status in_progress (queued now r bytes)).job ≡ some r
  unfolding request_of
  request_of-queued now r bytes decodes = rw (direction_back r.direction, decodes) refl

  -- A request that is queued while no transfer is pending and none has its key is the one that the
  -- worker gets next, with the fields it was queued with. What is encoded must be decoded as the same,
  -- and the database must answer.
  pub handle-next_request :
      (now : ℕ) (m : Message) (r : Request) (bytes : List ℕ) (w : Receiver.World)
      (calls : List Worker.Call)
      → receiver.parse m ≡ some r
      → receiver.encode r.direction r.payload ≡ some bytes
      → IsCodec
      → IsIdle r w.table
      → receiver.database (Receiver.query ∷ w.calls) ≡ none
      → worker.database (Worker.query ∷ calls) ≡ none
      → (next_request worker (record { table = (handle receiver now m w).table; calls = calls })).0
        ≡ ok (some r)
  handle-next_request now m r bytes w calls parses encodes codec (idle, fresh) stores answers =
      rw (handle-table now m r bytes w parses encodes fresh stores) (
        next_request-first (queued now r bytes) r (w.table ++ (queued now r bytes ∷ [])) calls
          answers (first_by-append (is_free file_transfer) w.table (queued now r bytes) idle refl)
          (request_of-queued now r bytes (codec r.direction r.payload bytes encodes)))
