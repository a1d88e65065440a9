-- ===== src/Io/Limit.antt =====
-- The writer that refuses what exceeds a limit: `Limit` of src/io/limit.rs. The writer inside it is a
-- parameter, with any state.
pub mod Writes
mod Tests
use edgehog_device_runtime.Base.{
  ℕ, ◌+◌, ◌-◌, ◌^◌, ltb, leb, if◌then◌else◌, List, [], ◌∷◌, length, Result, ok, err,
}

pub data ErrorKind : Type 0 where
  file_too_large : ErrorKind
  inner_error : ℕ → ErrorKind

-- `Poll<io::Result<usize>>`
pub data Poll : Type 0 where
  pending : Poll
  ready : Result ErrorKind ℕ → Poll

abbrev pub Buffer : Type 0
Buffer = List ℕ

pub record Limit (S : Type 0) : Type 0 where
  pub remaining : ℕ
  pub inner : S

-- subtraction on `u64`, which wraps around in a release build
unfoldable pub sub_u64 : ℕ → ℕ → ℕ
sub_u64 a b = if leb b a then a - b else (a + 2 ^ 64) - b

-- `Limit::new`
unfoldable pub new : {S : Type 0} → S → ℕ → Limit S
new inner total = record { remaining = total; inner = inner }

unfoldable pub counted : {S : Type 0} → ℕ → Poll × S → Poll × Limit S
counted remaining (pending, s) = (pending, record { remaining = remaining; inner = s })
counted remaining (ready (err e), s) = (ready (err e), record { remaining = remaining; inner = s })
counted remaining (ready (ok written), s) =
    (ready (ok written), record { remaining = sub_u64 remaining written; inner = s })

module _ {S : Type 0} (write : S → Buffer → Poll × S) where
  unfoldable pub poll_write : Limit S → Buffer → Poll × Limit S
  poll_write limit buf =
      if ltb limit.remaining (length buf)
      then (ready (err file_too_large), limit)
      else counted limit.remaining (write limit.inner buf)

-- writes one after the other, to any writer
unfoldable pub write_each : {S : Type 0} → (S → Buffer → Poll × S) → List Buffer → S → List Poll × S
write_each write [] s = ([], s)
write_each write (buf ∷ bufs) s =
    let (poll, s') = write s buf in
    let (polls, last) = write_each write bufs s' in (poll ∷ polls, last)
