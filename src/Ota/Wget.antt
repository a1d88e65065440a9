-- ===== src/Ota/Wget.antt =====
-- The download of an image: `wget` and `create_http_client` of src/ota/mod.rs.
pub mod Body
pub mod Cost
use Prim.Native.String.{◌++◌}
use edgehog_device_runtime.Base.{
  ℕ, zero, suc, Bool, true, false, ◌||◌, Option, none, some, List, [], ◌∷◌, length, if◌then◌else◌,
  Result, ok, err, pure, call, ◌>>=◌, ◌>>◌,
}
use edgehog_device_runtime.Ota.Status.{OtaError, network, io, internal, OtaId, downloading}
use edgehog_device_runtime.Ota.Env.{
  Env, FilePath, Response, Run, await, tls_config, http_client, http_get, next_chunk, file_exists,
  remove_file, create_file, write_chunk, publish,
}

-- `Result<(), OtaError>` as a value
abbrev pub Fallible : Type 0 → Type 0
Fallible A = Result OtaError A

-- `Content-Length`, where it is there and not 0
unfoldable pub total_size : Response → Option ℕ
total_size r = elim r.content_length [
  | none ↦ none
  | some zero ↦ none
  | some (suc n) ↦ some (suc n)
]

module _ (env : Env) (guarded : Bool) where
  abbrev pub percentage : ℕ → ℕ → ℕ
  percentage downloaded total = env.f64.mul (env.f64.div downloaded total) (env.f64.of_u64 100)

  -- Done, or ten points above the last percentage that was sent.
  abbrev is_due : ℕ → ℕ → Bool
  is_due now last =
      env.f64.eq now (env.f64.of_u64 100) || env.f64.ge (env.f64.sub now last) (env.f64.of_u64 10)

  -- The last percentage that was sent, once this one is reported where it is due.
  unfoldable pub report_progress : OtaId → ℕ → ℕ → Run ℕ
  report_progress req now last = elim (is_due now last) [
    | true ↦ (do
      await env guarded (publish (downloading req (env.f64.to_i32 now))) (λ _. tt)
      pure now)
    | false ↦ pure last
  ]

  -- A chunk that is not empty; `rest` goes on from the last percentage that was sent.
  unfoldable pub take_chunk :
      OtaId
      → FilePath
      → ℕ
      → ℕ
      → ℕ
      → List ℕ
      → (ℕ → Run (Fallible (Unit {0})))
      → Run (Fallible (Unit {0}))
  take_chunk req path total downloaded last chunk rest = do
    written ← await env guarded (write_chunk chunk) env.write_chunk
    elim written [
      | false ↦ pure (err (io ("Unable to write chunk to ota_file in " ++ env.path_debug path)))
      | true ↦ (do last' ← report_progress req (percentage downloaded total) last; rest last')
    ]

  -- the loop over the body; sizes and percentages are `f64`
  unfoldable pub copy_body :
      OtaId → FilePath → ℕ → ℕ → ℕ → List (Option (List ℕ)) → Run (Fallible (Unit {0}))
  copy_body req path total downloaded last [] = do
    await env guarded next_chunk (λ _. tt)
    pure (if env.f64.eq total downloaded then ok tt else err (network "Unable to download file"))
  copy_body req path total downloaded last (none ∷ rest) = do
    await env guarded next_chunk (λ _. tt)
    pure (err (network "Unable to parse response"))
  copy_body req path total downloaded last (some [] ∷ rest) = do
    await env guarded next_chunk (λ _. tt)
    copy_body req path total downloaded last rest
  copy_body req path total downloaded last (some (b ∷ bs) ∷ rest) = do
    await env guarded next_chunk (λ _. tt)
    let downloaded' = env.f64.add downloaded (env.f64.of_u64 (length (b ∷ bs)))
    take_chunk req path total downloaded' last (b ∷ bs)
        (λ last'. copy_body req path total downloaded' last' rest)

  unfoldable pub save_body : OtaId → FilePath → Response → ℕ → Run (Fallible (Unit {0}))
  save_body req path response size = do
    created ← await env guarded (create_file path) env.create_file
    elim created [
      | false ↦ pure (err (io ("Unable to create ota_file in " ++ env.path_debug path)))
      | true ↦
          copy_body req path (env.f64.of_u64 size) (env.f64.of_u64 0) (env.f64.of_u64 0)
            response.chunks
    ]

  unfoldable pub fetch : OtaId → FilePath → Run (Fallible (Unit {0}))
  fetch req path = do
    answer ← await env guarded (http_get req.url) env.http_get
    elim answer [
      | none ↦ pure (err (network "Error downloading update"))
      | some response ↦ elim (total_size response) [
        | none ↦ pure (err (network ("Unable to get content length from: " ++ req.url)))
        | some size ↦ save_body req path response size
      ]
    ]

  unfoldable pub wget : OtaId → FilePath → Run (Fallible (Unit {0}))
  wget req path = do
    old ← call (file_exists path) env.file_exists
    elim old [
      | false ↦ fetch req path
      | true ↦ (do
        removed ← await env guarded (remove_file path) env.remove_file
        elim removed [
          | false ↦ pure (err (internal "failed to remove old file"))
          | true ↦ fetch req path
        ])
    ]

-- The header's value is not checked here: where it cannot be set, that is only logged.
unfoldable pub create_http_client : Env → Run (Fallible (Unit {0}))
create_http_client env = do
  tls ← call tls_config env.tls_config
  elim tls [
    | false ↦ pure (err (internal "couldn't setup TLS configuration"))
    | true ↦ (do
      built ← call http_client env.http_client
      pure (if built then ok tt else err (internal "couldn't build HTTP client")))
  ]
