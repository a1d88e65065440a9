-- ===== src/Io/Digest/Tests.antt =====
-- The digest at concrete inputs: a file of two bytes that is written on by two buffers. The digest is
-- the content itself.
use edgehog_device_runtime.Base.{
  ◌≡◌, refl, sym, ap, List, [], ◌∷◌, ◌++◌, length, if◌then◌else◌, ok, err,
}
use mathlib.Core.List.{append_assoc, append-nil}
use edgehog_device_runtime.Base.Text.{same}
use edgehog_device_runtime.Io.Limit.{Poll, ready, Buffer, write_each}
use edgehog_device_runtime.Io.Digest.{Digest, take, poll_write, from_read, check_digest}
use edgehog_device_runtime.Io.Digest.Resumed.{
  IsContext, concat, answers_of, Records, from_read-check_digest,
}

abbrev update : Buffer → Buffer → Buffer
update c b = c ++ b

update-IsContext : IsContext update
update-IsContext = record { update_nil = append-nil; update_append = append_assoc }

abbrev write : Buffer → Buffer → Poll × Buffer
write s buf = (ready (ok (length buf)), s ++ buf)

abbrev content : Buffer → Buffer
content s = s

take-length : (buf : Buffer) → take (length buf) buf ≡ buf
unfolding take
take-length [] = refl
take-length (b ∷ buf) = ap (◌∷◌ b) (take-length buf)

write-Records : Records update update-IsContext write content
write-Records s buf = ap (λ b. s ++ b) (sym (take-length buf))

abbrev held : Buffer
held = 1 ∷ 2 ∷ []

abbrev chunks : List Buffer
chunks = (1 ∷ []) ∷ (2 ∷ []) ∷ []

abbrev bufs : List Buffer
bufs = (3 ∷ []) ∷ (4 ∷ 5 ∷ []) ∷ []

from_read-check_digest_example :
    (d : Digest Buffer Buffer) × (from_read update [] held 2 (answers_of chunks) ≡ ok d)
    × (let last = (write_each (poll_write update write) bufs d).1 in
        check_digest content last (1 ∷ []) ≡ (
          if same (content (update [] (content last.inner))) (1 ∷ [])
          then ok last.inner
          else err last.inner))
unfolding concat
from_read-check_digest_example =
    from_read-check_digest update update-IsContext write content content [] held chunks bufs
      (1 ∷ []) (tt, (tt, tt)) refl write-Records
