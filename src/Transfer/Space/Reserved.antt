-- ===== src/Transfer/Space/Reserved.antt =====
-- What the check of the space of src/file_transfer/file_system/store/mod.rs keeps free.
use Prim.Native.Nat.mul
use native.Mathlib.Nat.{div-add-mod', mul_comm, mul-add, mul-le-mul_left}
use edgehog_device_runtime.Base.{
  ℕ, ◌+◌, ◌-◌, ◌*◌, ◌/◌, ◌%◌, ◌^◌, ◌≤◌, ◌<◌, ◌≡◌, Bool, true, false, ltb, if◌then◌else◌, Option,
  none, refl, ap, Bool-cases, inl, inr, arith, some, ok,
}
use edgehog_device_runtime.Transfer.Space.{
  max_u64, saturated, div_ceil, Percentage, calculate, Statvfs, FsStat, Fs, counted_size, has_avail,
  fs_stat, has_total_free, enough, avail_checked, read_statvfs, reserve_space, finalize,
}

saturated-same : (n : ℕ) → n < 2 ^ 64 → saturated n ≡ n
unfolding saturated max_u64
saturated-same n l = ground (arith, l)

saturated-le : (n : ℕ) → saturated n ≤ 2 ^ 64 - 1
unfolding saturated max_u64
saturated-le n = ground arith

-- The blocks of a file are at most the size that is counted.
div_ceil-le : (a b : ℕ) → 0 < b → div_ceil a b * b ≤ a + (b - a % b)
unfolding div_ceil
div_ceil-le a b l =
    let e = div-add-mod' a b in
    elim (Bool-cases (ltb 0 (a % b))) [
      | inl h ↦ rw (h, if◌then◌else◌, mul.suc (a / b) b) (omega arith)
      | inr h ↦ rw (h, if◌then◌else◌) (omega arith)
    ]

calculate-le : (p : Percentage) (n : ℕ) → n * p.value < 2 ^ 64 → n * p.value ≤ 100 * calculate p n
unfolding calculate div_ceil
calculate-le p n l = rw (saturated-same (n * p.value) l) (ground arith)

sub-saturated : (r avail n : ℕ) → avail < 2 ^ 64 → r < avail - saturated n → r + n < avail
unfolding saturated max_u64
sub-saturated r avail n l h = ground arith

has_avail-ltb :
    (fs : Fs) (size : ℕ) (stat : FsStat)
    → has_avail fs size stat ≡ some true
    → (0 < stat.fragment_size)
      × (calculate fs.reserved stat.fs_total < stat.user_avail - counted_size size stat)
unfolding has_avail
has_avail-ltb fs size stat e = ground arith

has_avail-le :
    (fs : Fs) (size : ℕ) (stat : FsStat)
    → has_avail fs size stat ≡ some true
    → stat.user_avail < 2 ^ 64
    → calculate fs.reserved stat.fs_total + div_ceil size stat.fragment_size * stat.fragment_size
      < stat.user_avail
unfolding counted_size
has_avail-le fs size stat e l =
    let (positive, less) = has_avail-ltb fs size stat e in
    let below = div_ceil-le size stat.fragment_size positive in
    let counted = size + (stat.fragment_size - size % stat.fragment_size) in
    let fits = sub-saturated (calculate fs.reserved stat.fs_total) stat.user_avail counted l less in
    omega arith

avail_checked-avail : (avail : Option Bool) → avail_checked avail ≡ some (ok tt) → avail ≡ some true
unfolding avail_checked enough
avail_checked-avail none e = cc
avail_checked-avail (some true) e = refl
avail_checked-avail (some false) e = absurd (cc)

reserve_space-avail :
    (fs : Fs) (stat : Statvfs) (size : ℕ)
    → reserve_space fs (ok stat) size ≡ some (ok tt)
    → has_avail fs size (fs_stat stat) ≡ some true
unfolding reserve_space read_statvfs
reserve_space-avail fs stat size = avail_checked-avail (has_avail fs size (fs_stat stat))

finalize-less :
    (fs : Fs) (stat : Statvfs)
    → calculate fs.reserved (fs_stat stat).fs_total < (fs_stat stat).user_avail
    → finalize fs (ok stat) ≡ ok tt
unfolding finalize read_statvfs enough has_total_free
finalize-less fs stat l = ground arith

-- on a file system whose blocks are of one size
abbrev pub device : ℕ → ℕ → ℕ → Statvfs
device block blocks avail = record {
  f_bsize = block;
  f_frsize = block;
  f_blocks = blocks;
  f_bavail = avail;
}

-- the free bytes, less the blocks of a file
free-le : (block avail left n : ℕ) → avail ≤ left + n → block * avail ≤ block * left + n * block
free-le block avail left n l =
    let times = mul-le-mul_left block l in
    rw (mul_comm n block) (omega (arith, mul-add block left n))

-- On a device whose blocks are all of one size, where the free bytes, all bytes and the product of all
-- bytes with the percentage are below 2 ^ 64: when the space of a file is reserved, no block is freed, and no
-- more blocks are taken than the size of the file needs, then finalizing the file succeeds, and the
-- reserved percentage of all bytes is at most what is left free.
pub reserve_space-finalize :
    (fs : Fs) (block blocks avail left size : ℕ)
    → block * avail < 2 ^ 64
    → block * blocks < 2 ^ 64
    → block * blocks * fs.reserved.value < 2 ^ 64
    → reserve_space fs (ok (device block blocks avail)) size ≡ some (ok tt)
    → avail ≤ left + div_ceil size block
    → left ≤ avail
    → (finalize fs (ok (device block blocks left)) ≡ ok tt)
      × (block * blocks * fs.reserved.value ≤ 100 * (block * left))
reserve_space-finalize fs block blocks avail left size small whole total e taken within =
    let less =
      has_avail-le fs size (fs_stat (device block blocks avail))
        (reserve_space-avail fs (device block blocks avail) size e)
        (ground (arith, saturated-le (block * avail))) in
    let same = ap (calculate fs.reserved) (saturated-same (block * blocks) whole) in
    let all = saturated-same (block * avail) small in
    let stays = free-le block avail left (div_ceil size block) taken in
    let part = calculate-le fs.reserved (block * blocks) total in
    let fits = mul-le-mul_left block within in
    (
      finalize-less fs (device block blocks left)
          (rw (saturated-same (block * left) (omega arith)) (omega arith)),
      omega arith,
    )
