-- ===== src/Transfer/Space.antt =====
-- The space that is reserved on the device of the stored files: `Percentage` of
-- src/file_transfer/config.rs, `Fs` and `FsStat` of src/file_transfer/file_system/store/mod.rs and
-- `read_statvfs` of src/file_transfer/file_system/store/unix.rs. The call `statvfs` of the system is a
-- parameter: its answer.
pub mod Reserved
mod Tests
use edgehog_device_runtime.Base.{
  ℕ, suc, ◌+◌, ◌-◌, ◌*◌, ◌/◌, ◌%◌, ◌^◌, Bool, true, false, ltb, leb, if◌then◌else◌, Option, none,
  some, Result, ok, err,
}

-- the largest `u64`
unfoldable pub max_u64 : ℕ
max_u64 = 2 ^ 64 - 1

-- at the largest `u64`, where it is exceeded
unfoldable pub saturated : ℕ → ℕ
saturated n = if leb n max_u64 then n else max_u64

-- `u64::div_ceil`, with a divisor that is not 0
unfoldable pub div_ceil : ℕ → ℕ → ℕ
div_ceil a b = if ltb 0 (a % b) then suc (a / b) else a / b

-- `Percentage`, of a `u8`
pub record Percentage : Type 0 where
  pub value : ℕ

-- `Percentage::new`
unfoldable pub percentage : ℕ → Option Percentage
percentage value = if leb value 100 then some (record { value = value }) else none

unfoldable pub calculate : Percentage → ℕ → ℕ
calculate p value = div_ceil (saturated (value * p.value)) 100

-- the fields of the answer of `statvfs` that are read
pub record Statvfs : Type 0 where
  pub f_bsize : ℕ
  pub f_frsize : ℕ
  pub f_blocks : ℕ
  pub f_bavail : ℕ

pub record FsStat : Type 0 where
  pub fragment_size : ℕ
  pub user_avail : ℕ
  pub fs_total : ℕ

pub data IoError : Type 0 where
  file_too_large : IoError
  errno : ℕ → IoError

abbrev pub fs_stat : Statvfs → FsStat
fs_stat stat = record {
  fragment_size = stat.f_frsize;
  user_avail = saturated (stat.f_bsize * stat.f_bavail);
  fs_total = saturated (stat.f_frsize * stat.f_blocks);
}

-- with the error number of `statvfs`
unfoldable pub read_statvfs : Result ℕ Statvfs → Result IoError FsStat
read_statvfs (err e) = err (errno e)
read_statvfs (ok stat) = ok (fs_stat stat)

pub record Fs : Type 0 where
  pub reserved : Percentage

-- the size that is counted, for a fragment that is not empty
unfoldable pub counted_size : ℕ → FsStat → ℕ
counted_size file_size stat =
    saturated (file_size + (stat.fragment_size - file_size % stat.fragment_size))

-- `none` is the panic of a remainder by 0. Subtraction stops at 0 in the source too.
unfoldable pub has_avail : Fs → ℕ → FsStat → Option Bool
has_avail fs file_size stat =
    if ltb 0 stat.fragment_size
    then some
        (ltb (calculate fs.reserved stat.fs_total) (stat.user_avail - counted_size file_size stat))
    else none

unfoldable pub has_total_free : Fs → FsStat → Bool
has_total_free fs stat = ltb (calculate fs.reserved stat.fs_total) stat.user_avail

unfoldable pub enough : Bool → Result IoError Unit
enough true = ok tt
enough false = err file_too_large

-- the check of a file size, `none` where it panics
unfoldable pub avail_checked : Option Bool → Option (Result IoError Unit)
avail_checked none = none
avail_checked (some avail) = some (enough avail)

-- `none` is a panic.
unfoldable pub reserve_space : Fs → Result ℕ Statvfs → ℕ → Option (Result IoError Unit)
reserve_space fs answer file_size = elim (read_statvfs answer) [
  | err e ↦ some (err e)
  | ok stat ↦ avail_checked (has_avail fs file_size stat)
]

unfoldable pub finalize : Fs → Result ℕ Statvfs → Result IoError Unit
finalize fs answer = elim (read_statvfs answer) [
  | err e ↦ err e
  | ok stat ↦ enough (has_total_free fs stat)
]
