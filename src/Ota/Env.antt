-- ===== src/Ota/Env.antt =====
-- What src/ota/mod.rs reaches outside of itself: the traits `SystemUpdate` and `StateRepository`, the
-- status channel, the file system, HTTP, the timer and the cancellation token. Each use is a `Call`;
-- an `Env` answers it from the history of the calls so far, so that a theorem over all `Env` holds
-- for every behaviour of the outside. An answer `none` is an `Err`, whose content is only logged.
use Prim.Native.Char.{code}
use Prim.Native.String.{◌++◌}
use text.Mathlib.Text.{◌==◌ as str_eq}
use edgehog_device_runtime.Base.{
  ℕ, String, ◌==◌, Bool, false, ◌&&◌, ◌||◌, Option, List, ◌∷◌, if◌then◌else◌, ℤ, Exec, ok, err,
}
use edgehog_device_runtime.Ota.Status.{DeployStatus, PersistentState, OtaStatus}

-- A `PathBuf`: its text, lossy where it is not UTF-8.
pub record FilePath : Type 0 where
  pub text : String
  pub is_utf8 : Bool

abbrev ends_with_slash : String → Bool
ends_with_slash String.[] = false
ends_with_slash (String.◌∷◌ c String.[]) = code c == b'/'
ends_with_slash (String.◌∷◌ c (String.◌∷◌ d s)) = ends_with_slash (String.◌∷◌ d s)

-- `Path::join` with a relative name
unfoldable pub join : FilePath → String → FilePath
join p name = record p {
  text =
      if str_eq p.text "" || ends_with_slash p.text then p.text ++ name else p.text ++ "/" ++ name;
}

pub data Call : Type 0 where
  install_bundle info : String → Call
  last_error operation compatible boot_slot receive_completed get_primary : Call
  mark : String → String → Call
  repo_exists repo_read repo_clear : Call
  repo_write : PersistentState → Call
  publish : OtaStatus → Call
  tls_config http_client : Call
  http_get : String → Call
  next_chunk next_status : Call
  file_exists remove_file create_file : FilePath → Call
  write_chunk : List ℕ → Call
  reboot_now : Call
  sleep : ℕ → Call  -- seconds
  poll_cancel : Call

abbrev pub History : Type 0
History = List Call

pub record BundleInfo : Type 0 where
  pub compatible : String
  pub version : String

pub record Response : Type 0 where
  pub content_length : Option ℕ
  pub chunks : List (Option (List ℕ))

-- `f64` as its bit pattern, with the operations that the code uses.
pub record F64 : Type 0 where
  pub of_u64 : ℕ → ℕ
  pub add : ℕ → ℕ → ℕ
  pub sub : ℕ → ℕ → ℕ
  pub mul : ℕ → ℕ → ℕ
  pub div : ℕ → ℕ → ℕ
  pub eq : ℕ → ℕ → Bool
  pub ge : ℕ → ℕ → Bool
  pub to_i32 : ℕ → ℤ

pub record Env : Type 0 where
  pub install_bundle : History → Bool
  pub last_error : History → Option String
  pub info : History → Option BundleInfo
  pub operation : History → Option String
  pub compatible : History → Option String
  pub boot_slot : History → Option String
  pub receive_completed : History → Option (List (Option DeployStatus))
  pub get_primary : History → Option String
  pub mark : History → Option (String × String)
  pub repo_exists : History → Bool
  pub repo_read : History → Option PersistentState
  pub repo_write : History → Bool
  pub repo_clear : History → Bool
  pub tls_config : History → Bool
  pub http_client : History → Bool
  pub http_get : History → Option Response
  pub file_exists : History → Bool
  pub remove_file : History → Bool
  pub create_file : History → Bool
  pub write_chunk : History → Bool
  pub reboot_now : History → Bool
  pub is_cancelled : History → Bool
  pub path_debug : FilePath → String
  pub decimal : ℤ → String
  pub f64 : F64

-- A run stops only because its future is dropped by the cancellation.
abbrev pub Run : Type 0 → Type 0
Run A = Exec Call (Unit {0}) A

-- An await point. Under `run_until_cancelled` (`guarded`) the future is dropped there if the token is
-- cancelled while the call is pending: the call was made and its answer is lost.
abbrev pub await : {A : Type 0} → Env → Bool → Call → (History → A) → Run A
await env guarded c answer h =
    if guarded && env.is_cancelled (c ∷ h) then (err tt, c ∷ h) else (ok (answer (c ∷ h)), c ∷ h)
