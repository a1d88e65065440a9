-- ===== src/Ota/Update/Retry.antt =====
-- The attempts of `download` in src/ota/mod.rs, and the time between them.
use edgehog_device_runtime.Base.{ℕ, zero, suc, ◌+◌, ◌^◌, ◌≤◌, ◌≡◌, Bool, String, arith, ◌∷◌}
use edgehog_device_runtime.Ota.Status.{OtaId}
use edgehog_device_runtime.Ota.Env.{Env, FilePath, History, tls_config, http_client}
use edgehog_device_runtime.Ota.Wget.{create_http_client}
use edgehog_device_runtime.Ota.Wget.Cost.{request_count, waited, install_count, wget-OneRequest}
use edgehog_device_runtime.Ota.Update.{
  Ota, get_update_file_path, retry_loop, retry_download, check_bundle, download,
}

-- The seconds that the attempts from `i` on may wait for, `left` of them.
abbrev backoff : ℕ → ℕ → ℕ
backoff zero i = 0
backoff (suc left) i = 2 ^ i + backoff left (i + 1)

abbrev pub Within : ℕ → ℕ → History → History → Type 0
Within requests seconds h h' =
    (request_count h' ≤ request_count h + requests)
    × (waited h' ≤ waited h + seconds)
    × (install_count h' ≡ install_count h)

module _ (env : Env) (guarded : Bool) where
  retry_loop-Within :
      (req : OtaId) (path : FilePath) (file : String) (left i : ℕ) (h : History)
      → Within left (backoff left i) h (retry_loop env guarded req path file left i h).1
  unfolding retry_loop request_count waited install_count
  retry_loop-Within req path file zero i h = omega arith
  retry_loop-Within req path file (suc left) i h =
      grind
        (arith, wget-OneRequest, λ (h' : History). retry_loop-Within req path file left (i + 1) h')

  retry_download-Within :
      (req : OtaId) (path : FilePath) (file : String) (h : History)
      → Within 5 62 h (retry_download env guarded req path file h).1
  unfolding retry_download create_http_client request_count waited install_count
  retry_download-Within req path file h =
      ground (arith, retry_loop-Within req path file 5 1 (http_client ∷ tls_config ∷ h))

  check_bundle-Within :
      (req : OtaId) (path : FilePath) (file : String) (h : History)
      → Within 0 0 h (check_bundle env guarded req path file h).1
  unfolding check_bundle request_count waited install_count
  check_bundle-Within req path file h = ground arith

  -- A download asks the server five times at most and waits for 62 seconds at most between the
  -- attempts, and it installs nothing, whether it ends, fails or is cancelled.
  pub download-Within :
      (s : Ota) (req : OtaId) (h : History) → Within 5 62 h (download env guarded s req h).1
  unfolding download
  download-Within s req h =
      let path = get_update_file_path s in
      let after = (retry_download env guarded req path path.text h).1 in
      grind (
        arith,
        retry_download-Within req path path.text h,
        λ (file : String). check_bundle-Within req path file after,
      )
