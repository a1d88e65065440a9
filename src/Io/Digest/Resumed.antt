-- ===== src/Io/Digest/Resumed.antt =====
-- The digest of a file that is written on behind what it holds.
use edgehog_device_runtime.Base.{
  ◌==◌, ◌≡◌, refl, sym, ap, ◌∙◌, true, Bool-cases, if◌then◌else◌, List, [], ◌∷◌, ◌++◌, map, length,
  All, Result, ok, err, arith, inl, inr,
}
use mathlib.Core.List.{append-nil}
use edgehog_device_runtime.Base.Text.{same}
use edgehog_device_runtime.Io.Limit.{ErrorKind, Poll, pending, ready, Buffer, write_each}
use edgehog_device_runtime.Io.Limit.Writes.{written_by}
use edgehog_device_runtime.Io.Digest.{
  Digest, take, hashed, poll_write, read_start, from_read, check_digest,
}

-- The context of a digest: what is added in parts is added as a whole.
pub record IsContext {C : Type 0} (update : C → Buffer → C) : Type 0 where
  pub update_nil : (c : C) → update c [] ≡ c
  pub update_append : (c : C) (a b : Buffer) → update (update c a) b ≡ update c (a ++ b)

unfoldable pub concat : List Buffer → Buffer
concat [] = []
concat (b ∷ bs) = b ++ concat bs

abbrev pub IsFull : Buffer → Type 0
IsFull [] = ⊥
IsFull (b ∷ buf) = Unit

-- what a reader answers: full buffers, and an empty one at the end
abbrev pub answers_of : List Buffer → List (Result ErrorKind Buffer)
answers_of chunks = map (λ b. ok b) chunks ++ ok [] ∷ []

nil_of_length : (b : Buffer) → (length b == 0) ≡ true → b ≡ []
nil_of_length [] h = refl
nil_of_length (x ∷ b) h = absurd (ground (arith, h))

module _ {C : Type 0} (update : C → Buffer → C) (context : IsContext update) where
  read_start-chunks :
      (c : C) (chunks : List Buffer)
      → All IsFull chunks
      → read_start update c (answers_of chunks) ≡ ok (update c (concat chunks))
  unfolding read_start concat
  read_start-chunks c [] h = ap ok (sym (context.update_nil c))
  read_start-chunks c ([] ∷ chunks) h = absurd h.0
  read_start-chunks c ((b ∷ buf) ∷ chunks) h =
      read_start-chunks (update c (b ∷ buf)) chunks h.1
      ∙ ap ok (context.update_append c (b ∷ buf) (concat chunks))

  module _ {S : Type 0} (write : S → Buffer → Poll × S) (content : S → Buffer) where
    -- What is written is added to the content of the writer.
    abbrev pub Records : Type 0
    Records =
        (s : S) (buf : Buffer)
        → content (write s buf).1 ≡ content s ++ take (written_by (write s buf).0) buf

    -- The context has taken in the content of the writer.
    abbrev IsDigest : C → Digest C S → Type 0
    IsDigest fresh d = d.ctx ≡ update fresh (content d.inner)

    hashed-IsDigest :
        (fresh ctx : C) (old : Buffer) (buf : Buffer) (o : Poll × S)
        → ctx ≡ update fresh old
        → content o.1 ≡ old ++ take (written_by o.0) buf
        → IsDigest fresh (hashed update ctx buf o).1
    unfolding hashed take
    hashed-IsDigest fresh ctx old buf (pending, s) h r =
        h ∙ ap (update fresh) (sym (r ∙ append-nil old))
    hashed-IsDigest fresh ctx old buf (ready (err e), s) h r =
        h ∙ ap (update fresh) (sym (r ∙ append-nil old))
    hashed-IsDigest fresh ctx old buf (ready (ok n), s) h r =
        rw (h, context.update_append fresh old (take n buf)) (ap (update fresh) (sym r))

    write_each-IsDigest :
        (fresh : C) (bufs : List Buffer) (d : Digest C S)
        → Records
        → IsDigest fresh d
        → IsDigest fresh (write_each (poll_write update write) bufs d).1
    unfolding write_each poll_write
    write_each-IsDigest fresh [] d records h = h
    write_each-IsDigest fresh (buf ∷ bufs) d records h = write_each-IsDigest fresh bufs _ records (
        hashed-IsDigest fresh d.ctx (content d.inner) buf (write d.inner buf) h
          (records d.inner buf))

    from_read-IsDigest :
        (fresh : C) (s : S) (chunks : List Buffer)
        → All IsFull chunks
        → concat chunks ≡ content s
        → (d : Digest C S) × (from_read update fresh s (length (content s)) (answers_of chunks)
            ≡ ok d)
          × IsDigest fresh d
    unfolding from_read
    from_read-IsDigest fresh s chunks full e = elim (Bool-cases (length (content s) == 0)) [
      | inl z ↦ (
        record { ctx = fresh; inner = s },
        rw z refl,
        rw (nil_of_length (content s) z) (sym (context.update_nil fresh)),
      )
      | inr n ↦ (
        record { ctx = update fresh (concat chunks); inner = s },
        rw (n, read_start-chunks fresh chunks full) refl,
        ap (update fresh) e,
      )
    ]

    -- The digest of a file whose content was read in full before any writes is that of all that the
    -- file holds after them. So it is accepted exactly if the digest of the whole file is right, where
    -- the context takes in parts as it takes in the whole, what the reader returns before its end is the
    -- content, and the writer adds what it says that it wrote.
    pub from_read-check_digest :
        (finish : C → Buffer) (fresh : C) (s : S) (chunks bufs : List Buffer) (digest : Buffer)
        → All IsFull chunks
        → concat chunks ≡ content s
        → Records
        → (d : Digest C S) × (from_read update fresh s (length (content s)) (answers_of chunks)
            ≡ ok d)
          × (let last = (write_each (poll_write update write) bufs d).1 in
              check_digest finish last digest ≡ (
                if same (finish (update fresh (content last.inner))) digest
                then ok last.inner
                else err last.inner))
    unfolding check_digest
    from_read-check_digest finish fresh s chunks bufs digest full e records =
        let (d, started, h) = from_read-IsDigest fresh s chunks full e in
        (d, started, rw (write_each-IsDigest fresh bufs d records h) refl)
