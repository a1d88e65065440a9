-- ===== src/Io/Limit/Tests.antt =====
-- The theorems on a limit at concrete inputs, and runs of the model.
use edgehog_device_runtime.Base.{ℕ, ◌+◌, ◌≤◌, ◌≡◌, refl, arith, List, [], ◌∷◌, length, ok, err}
use edgehog_device_runtime.Io.Limit.{
  file_too_large, Poll, ready, Buffer, new, sub_u64, counted, poll_write, write_each,
}
use edgehog_device_runtime.Io.Limit.Writes.{
  total_written, total_length, write_each-remaining, write_each-inner,
}

-- A writer that takes two bytes at most, and counts them.
abbrev taken : Buffer → ℕ
taken [] = 0
taken (_ ∷ []) = 1
taken (_ ∷ _ ∷ _) = 2

abbrev write : ℕ → Buffer → Poll × ℕ
write n buf = (ready (ok (taken buf)), n + taken buf)

abbrev buffers : List Buffer
buffers = (1 ∷ 2 ∷ 3 ∷ []) ∷ (3 ∷ []) ∷ (4 ∷ 5 ∷ []) ∷ []

taken-le : (buf : Buffer) → taken buf ≤ length buf
taken-le [] = omega arith
taken-le (_ ∷ []) = omega arith
taken-le (_ ∷ _ ∷ bs) = omega arith

-- the last buffer exceeds what remains
refuses_last : write_each (poll_write write) buffers (new 0 4) ≡ (
  ready (ok 2) ∷ ready (ok 1) ∷ ready (err file_too_large) ∷ [],
  record { remaining = 1; inner = 3 },
)
unfolding write_each poll_write counted sub_u64 new
refuses_last = refl

write_each-remaining_run :
    total_written (write_each (poll_write write) buffers (new 0 4)).0
      + (write_each (poll_write write) buffers (new 0 4)).1.remaining
    ≡ 4
unfolding new
write_each-remaining_run = write_each-remaining write buffers (new 0 4) (λ s buf. taken-le buf)

write_each-inner_run :
    ((write_each (poll_write write) buffers (new 0 6)).0 ≡ (write_each write buffers 0).0)
    × ((write_each (poll_write write) buffers (new 0 6)).1.inner ≡ (write_each write buffers 0).1)
unfolding new total_length
write_each-inner_run =
    write_each-inner write buffers (new 0 6) (λ s buf. taken-le buf) (omega arith)
