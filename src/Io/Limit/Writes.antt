-- ===== src/Io/Limit/Writes.antt =====
-- The writes through a `Limit` of src/io/limit.rs, with a writer inside that keeps the contract of
-- `AsyncWrite`.
use edgehog_device_runtime.Base.{
  ℕ, ◌+◌, ◌≤◌, ◌≡◌, refl, ap, ◌∙◌, inl, inr, false, ltb, Bool-cases, arith, List, [], ◌∷◌, length,
  ok, err,
}
use edgehog_device_runtime.Io.Limit.{
  Poll, pending, ready, Buffer, Limit, sub_u64, counted, poll_write, write_each,
}

-- the bytes that were written
abbrev pub written_by : Poll → ℕ
written_by pending = 0
written_by (ready (err e)) = 0
written_by (ready (ok n)) = n

unfoldable pub total_written : List Poll → ℕ
total_written [] = 0
total_written (p ∷ ps) = written_by p + total_written ps

unfoldable pub total_length : List Buffer → ℕ
total_length [] = 0
total_length (b ∷ bs) = length b + total_length bs

counted-remaining :
    {S : Type 0} (remaining : ℕ) (o : Poll × S)
    → written_by o.0 ≤ remaining
    → written_by (counted remaining o).0 + (counted remaining o).1.remaining ≡ remaining
unfolding counted sub_u64
counted-remaining remaining (pending, s) l = omega arith
counted-remaining remaining (ready (err e), s) l = omega arith
counted-remaining remaining (ready (ok n), s) l = ground (arith, l)

counted-same :
    {S : Type 0} (remaining : ℕ) (o : Poll × S)
    → ((counted remaining o).0 ≡ o.0) × ((counted remaining o).1.inner ≡ o.1)
unfolding counted
counted-same remaining (pending, s) = (refl, refl)
counted-same remaining (ready (err e), s) = (refl, refl)
counted-same remaining (ready (ok n), s) = (refl, refl)

module _ {S : Type 0} (write : S → Buffer → Poll × S) where
  -- The contract of `AsyncWrite`: no more is written than the buffer holds.
  abbrev pub IsWriter : Type 0
  IsWriter = (s : S) (buf : Buffer) → written_by (write s buf).0 ≤ length buf

  poll_write-remaining :
      (limit : Limit S) (buf : Buffer)
      → IsWriter
      → written_by (poll_write write limit buf).0 + (poll_write write limit buf).1.remaining
        ≡ limit.remaining
  unfolding poll_write
  poll_write-remaining limit buf writer = elim (Bool-cases (ltb limit.remaining (length buf))) [
    | inl e ↦ rw e (omega arith)
    | inr e ↦
        let l = writer limit.inner buf in
        rw e (counted-remaining limit.remaining (write limit.inner buf) (ground (arith, e, l)))
  ]

  -- What is written through a limit and what remains of it add up to the limit, with a writer inside
  -- that keeps the contract of `AsyncWrite`. So no sequence of writes passes on more than the limit.
  pub write_each-remaining :
      (bufs : List Buffer) (limit : Limit S)
      → IsWriter
      → total_written (write_each (poll_write write) bufs limit).0
          + (write_each (poll_write write) bufs limit).1.remaining
        ≡ limit.remaining
  unfolding write_each total_written
  write_each-remaining [] limit writer = omega arith
  write_each-remaining (buf ∷ bufs) limit writer =
      let (p, next) = poll_write write limit buf in
      omega (arith, poll_write-remaining limit buf writer, write_each-remaining bufs next writer)

  poll_write-inner :
      (limit : Limit S) (buf : Buffer)
      → length buf ≤ limit.remaining
      → ((poll_write write limit buf).0 ≡ (write limit.inner buf).0)
        × ((poll_write write limit buf).1.inner ≡ (write limit.inner buf).1)
  unfolding poll_write
  poll_write-inner limit buf l =
      let e : ltb limit.remaining (length buf) ≡ false = ground (arith, l) in
      rw e (counted-same limit.remaining (write limit.inner buf))

  -- Buffers that fit into the limit together are written as to the writer inside, which keeps the
  -- contract of `AsyncWrite`: with the same results, and to the same state.
  pub write_each-inner :
      (bufs : List Buffer) (limit : Limit S)
      → IsWriter
      → total_length bufs ≤ limit.remaining
      → ((write_each (poll_write write) bufs limit).0 ≡ (write_each write bufs limit.inner).0)
        × ((write_each (poll_write write) bufs limit).1.inner
            ≡ (write_each write bufs limit.inner).1)
  unfolding write_each total_length
  write_each-inner [] limit writer l = (refl, refl)
  write_each-inner (buf ∷ bufs) limit writer l =
      let (p, next) = poll_write write limit buf in
      let (same, inner) = poll_write-inner limit buf (omega (arith, l)) in
      let here = poll_write-remaining limit buf writer in
      let bound = writer limit.inner buf in
      let few : written_by p ≤ length buf = rw same bound in
      let fits : total_length bufs ≤ next.remaining = omega (arith, l, here, few) in
      let (rest, last) = write_each-inner bufs next writer fits in
      let through = ap (λ s. write_each write bufs s) inner in
      (cc (same, rest), last ∙ ap (λ o. o.1) through)
