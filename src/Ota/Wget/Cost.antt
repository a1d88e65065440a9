-- ===== src/Ota/Wget/Cost.antt =====
-- The requests, the waits and the installations of `wget` of src/ota/mod.rs.
use edgehog_device_runtime.Base.{
  ℕ, suc, ◌+◌, ◌≤◌, ◌≡◌, Bool, Option, none, some, List, [], ◌∷◌, arith, length,
}
use edgehog_device_runtime.Ota.Status.{OtaId}
use edgehog_device_runtime.Ota.Env.{
  Run, Env, FilePath, Response, History, install_bundle, sleep, http_get, file_exists, remove_file,
  create_file, next_chunk,
}
use edgehog_device_runtime.Ota.Wget.{
  take_chunk, Fallible, report_progress, copy_body, save_body, fetch, wget,
}

unfoldable pub request_count : History → ℕ
request_count [] = 0
request_count (http_get url ∷ h) = suc (request_count h)
request_count (_ ∷ h) = request_count h

-- The seconds that were waited.
unfoldable pub waited : History → ℕ
waited [] = 0
waited (sleep n ∷ h) = n + waited h
waited (_ ∷ h) = waited h

unfoldable pub install_count : History → ℕ
install_count [] = 0
install_count (install_bundle uri ∷ h) = suc (install_count h)
install_count (_ ∷ h) = install_count h

abbrev pub Same : History → History → Type 0
Same h h' =
    (request_count h' ≡ request_count h)
    × (waited h' ≡ waited h)
    × (install_count h' ≡ install_count h)

abbrev pub OneRequest : History → History → Type 0
OneRequest h h' =
    (request_count h' ≤ request_count h + 1)
    × (waited h' ≡ waited h)
    × (install_count h' ≡ install_count h)

module _ (env : Env) (guarded : Bool) where
  report_progress-Same :
      (req : OtaId) (now last : ℕ) (h : History)
      → Same h (report_progress env guarded req now last h).1
  unfolding report_progress request_count waited install_count
  report_progress-Same req now last h = ground arith

  take_chunk-Same :
      (req : OtaId) (path : FilePath) (total got last : ℕ) (chunk : List ℕ)
      (rest : ℕ → Run (Fallible (Unit {0}))) (h : History)
      → ((l : ℕ) (h' : History) → Same h' (rest l h').1)
      → Same h (take_chunk env guarded req path total got last chunk rest h).1
  unfolding take_chunk request_count waited install_count
  take_chunk-Same req path total got last chunk rest h same =
      grind (arith, report_progress-Same, same)

  copy_body-Same :
      (req : OtaId) (path : FilePath) (total got last : ℕ) (chunks : List (Option (List ℕ)))
      (h : History)
      → Same h (copy_body env guarded req path total got last chunks h).1
  unfolding copy_body request_count waited install_count
  copy_body-Same req path total got last [] h = ground arith
  copy_body-Same req path total got last (none ∷ rest) h = ground arith
  copy_body-Same req path total got last (some [] ∷ rest) h =
      ground (arith, copy_body-Same req path total got last rest (next_chunk ∷ h))
  copy_body-Same req path total got last (some (b ∷ bs) ∷ rest) h =
      let got' = env.f64.add got (env.f64.of_u64 (length (b ∷ bs))) in
      ground (
        arith,
        take_chunk-Same req path total got' last (b ∷ bs)
            (λ l. copy_body env guarded req path total got' l rest) (next_chunk ∷ h)
            (λ l h'. copy_body-Same req path total got' l rest h'),
      )

  save_body-Same :
      (req : OtaId) (path : FilePath) (r : Response) (size : ℕ) (h : History)
      → Same h (save_body env guarded req path r size h).1
  unfolding save_body request_count waited install_count
  save_body-Same req path r size h =
      let zero_f64 = env.f64.of_u64 0 in
      ground (
        arith,
        copy_body-Same req path (env.f64.of_u64 size) zero_f64 zero_f64 r.chunks
            (create_file path ∷ h),
      )

  fetch-OneRequest :
      (req : OtaId) (path : FilePath) (h : History) → OneRequest h (fetch env guarded req path h).1
  unfolding fetch request_count waited install_count
  fetch-OneRequest req path h =
      grind
        (arith, λ (r : Response) (size : ℕ). save_body-Same req path r size (http_get req.url ∷ h))

  -- A download makes one request at most; it neither waits nor installs.
  pub wget-OneRequest :
      (req : OtaId) (path : FilePath) (h : History) → OneRequest h (wget env guarded req path h).1
  unfolding wget request_count waited install_count
  wget-OneRequest req path h = ground (
    arith,
    fetch-OneRequest req path (file_exists path ∷ h),
    fetch-OneRequest req path (remove_file path ∷ file_exists path ∷ h),
  )
