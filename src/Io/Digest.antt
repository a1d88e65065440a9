-- ===== src/Io/Digest.antt =====
-- The adapter that computes a digest: `Digest` of src/io/digest.rs. The context of the digest is the
-- cryptographic library's, and the writer inside is a parameter, with any state.
pub mod Resumed
mod Tests
use edgehog_device_runtime.Base.{
  ℕ, zero, suc, ◌==◌, Bool, if◌then◌else◌, List, [], ◌∷◌, Result, ok, err,
}
use edgehog_device_runtime.Base.Text.{same}
use edgehog_device_runtime.Io.Limit.{ErrorKind, Poll, pending, ready, Buffer}

pub record Digest (C S : Type 0) : Type 0 where
  pub ctx : C
  pub inner : S

-- `&buf[..n]`, for `n` up to the length of the buffer
unfoldable pub take : ℕ → Buffer → Buffer
take zero buf = []
take (suc n) [] = []
take (suc n) (b ∷ buf) = b ∷ take n buf

-- the loop over what `fill_buf` returns, up to an empty buffer
unfoldable pub read_start :
    {C : Type 0} → (C → Buffer → C) → C → List (Result ErrorKind Buffer) → Result ErrorKind C
read_start update ctx [] = ok ctx
read_start update ctx (err e ∷ answers) = err e
read_start update ctx (ok [] ∷ answers) = ok ctx
read_start update ctx (ok (b ∷ buf) ∷ answers) = read_start update (update ctx (b ∷ buf)) answers

abbrev pub with_inner : {C S : Type 0} → S → Result ErrorKind C → Result ErrorKind (Digest C S)
with_inner s (ok ctx) = ok (record { ctx = ctx; inner = s })
with_inner s (err e) = err e

module _ {C S : Type 0} (update : C → Buffer → C) where
  unfoldable pub hashed : C → Buffer → Poll × S → Poll × Digest C S
  hashed ctx buf (pending, s) = (pending, record { ctx = ctx; inner = s })
  hashed ctx buf (ready (err e), s) = (ready (err e), record { ctx = ctx; inner = s })
  hashed ctx buf (ready (ok written), s) =
      (ready (ok written), record { ctx = update ctx (take written buf); inner = s })

  unfoldable pub poll_write : (S → Buffer → Poll × S) → Digest C S → Buffer → Poll × Digest C S
  poll_write write digest buf = hashed digest.ctx buf (write digest.inner buf)

  -- `Digest::from_read`, with a fresh context
  unfoldable pub from_read :
      C → S → ℕ → List (Result ErrorKind Buffer) → Result ErrorKind (Digest C S)
  from_read fresh s seek answers =
      if seek == 0
      then ok (record { ctx = fresh; inner = s })
      else with_inner s (read_start update fresh answers)

unfoldable pub check_digest : {C S : Type 0} → (C → Buffer) → Digest C S → Buffer → Result S S
check_digest finish d digest = if same (finish d.ctx) digest then ok d.inner else err d.inner
