-- ===== src/Transfer/Space/Tests.antt =====
-- The theorem on reserved space at a concrete device, and runs of the checks of
-- src/file_transfer/file_system/store/mod.rs.
use edgehog_device_runtime.Base.{◌+◌, ◌*◌, ◌≤◌, ◌≡◌, refl, arith, none, some, ok, err}
use edgehog_device_runtime.Transfer.Space.{
  max_u64, saturated, div_ceil, percentage, calculate, Fs, file_too_large, errno, read_statvfs,
  counted_size, has_avail, enough, avail_checked, reserve_space, finalize,
}
use edgehog_device_runtime.Transfer.Space.Reserved.{device, reserve_space-finalize}

abbrev twenty : Fs
twenty = record { reserved = record { value = 20 } }

percentages : (percentage 100 ≡ some (record { value = 100 })) × (percentage 101 ≡ none)
unfolding percentage
percentages = (refl, refl)

-- A size that is a multiple of the fragment is counted with one fragment more.
counts_a_fragment_more :
    (reserve_space twenty (ok (device 100 20 5)) 100 ≡ some (err file_too_large))
    × (reserve_space twenty (ok (device 100 20 5)) 99 ≡ some (err file_too_large))
    × (reserve_space twenty (ok (device 100 20 6)) 99 ≡ some (ok tt))
    × (reserve_space twenty (ok (device 100 20 6)) 100 ≡ some (err file_too_large))
unfolding reserve_space read_statvfs avail_checked enough has_avail counted_size calculate div_ceil
    saturated max_u64
counts_a_fragment_more = (refl, refl, refl, refl)

panics_without_fragment : reserve_space twenty (ok (device 0 20 5)) 7 ≡ none
unfolding reserve_space read_statvfs avail_checked has_avail
panics_without_fragment = refl

passes_the_error :
    (reserve_space twenty (err 2) 7 ≡ some (err (errno 2)))
    × (finalize twenty (err 2) ≡ err (errno 2))
unfolding reserve_space finalize read_statvfs
passes_the_error = (refl, refl)

is_reserved : reserve_space twenty (ok (device 4096 1000 300)) 10000 ≡ some (ok tt)
unfolding reserve_space read_statvfs avail_checked enough has_avail counted_size calculate div_ceil
    saturated max_u64
is_reserved = refl

takes_three : 300 ≤ 297 + div_ceil 10000 4096
unfolding div_ceil
takes_three = omega arith

reserve_space-finalize_example :
    (finalize twenty (ok (device 4096 1000 297)) ≡ ok tt) × (4096 * 1000 * 20 ≤ 100 * (4096 * 297))
reserve_space-finalize_example =
    reserve_space-finalize twenty 4096 1000 300 297 10000 (omega arith) (omega arith) (omega arith)
      is_reserved takes_three (omega arith)
