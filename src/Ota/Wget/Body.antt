-- ===== src/Ota/Wget/Body.antt =====
-- What `wget` of src/ota/mod.rs has written when it returns.
use mathlib.Core.List.{append-nil, append_assoc}
use edgehog_device_runtime.Base.{
  ℕ, ◌+◌, ◌^◌, ◌≤◌, ◌≡◌, refl, Bool, true, false, Option, none, some, List, [], ◌∷◌, ◌++◌, sym, ap,
  ◌∙◌, ◌≢◌, subst, length, length-append, arith, Result, ok, err, Bool-cases, inl, inr,
}
use edgehog_device_runtime.Ota.Status.{OtaId}
use edgehog_device_runtime.Ota.Env.{
  Env, F64, FilePath, Response, History, http_get, file_exists, remove_file, write_chunk,
  create_file, next_chunk,
}
use edgehog_device_runtime.Ota.Wget.{
  percentage, report_progress, take_chunk, copy_body, save_body, fetch, total_size, wget,
}

-- What the file holds after these calls: a new file is empty.
unfoldable pub written : History → List ℕ
written [] = []
written (write_chunk bytes ∷ h) = written h ++ bytes
written (create_file _ ∷ h) = []
written (_ ∷ h) = written h

-- The bytes that a body's chunks hold, and whether it came to its end.
unfoldable pub bytes : List (Option (List ℕ)) → List ℕ
bytes [] = []
bytes (none ∷ rest) = []
bytes (some chunk ∷ rest) = chunk ++ bytes rest

unfoldable pub is_whole : List (Option (List ℕ)) → Bool
is_whole [] = true
is_whole (none ∷ rest) = false
is_whole (some chunk ∷ rest) = is_whole rest

-- `f64` is exact on whole numbers up to 2^53.
pub record IsExact (f : F64) : Type 0 where
  pub add_exact : (a b : ℕ) → a + b ≤ 2 ^ 53 → f.add (f.of_u64 a) (f.of_u64 b) ≡ f.of_u64 (a + b)
  pub eq_exact : (a b : ℕ) → a ≤ 2 ^ 53 → b ≤ 2 ^ 53 → f.eq (f.of_u64 a) (f.of_u64 b) ≡ true → a ≡ b

abbrev pub Ok : {E A : Type 0} → Result E (Result A (Unit {0})) → Type 0
Ok r = r ≡ ok (ok tt)

module _ (env : Env) where
  report_progress-written :
      (req : OtaId) (now last : ℕ) (h : History)
      → written (report_progress env false req now last h).1 ≡ written h
  unfolding report_progress written
  report_progress-written req now last h = ground arith

  -- the last percentage sent, as a number
  sent : OtaId → ℕ → ℕ → History → ℕ
  sent req now last h = elim (report_progress env false req now last h).0 [ ok l ↦ l | err _ ↦ 0 ]

  report_progress-sent :
      (req : OtaId) (now last : ℕ) (h : History)
      → (report_progress env false req now last h).0 ≡ ok (sent req now last h)
  unfolding report_progress sent
  report_progress-sent req now last h = ground arith

  abbrev Copied : ℕ → ℕ → List (Option (List ℕ)) → History → History → Type 0
  Copied size n chunks h h' =
      (is_whole chunks ≡ true)
      × (written h' ≡ written h ++ bytes chunks)
      × (size ≡ n + length (bytes chunks))

  -- a chunk more
  Copied-cons :
      (size n : ℕ) (chunk : List ℕ) (rest : List (Option (List ℕ))) (h h₂ h' : History)
      → written h₂ ≡ written h ++ chunk
      → Copied size (n + length chunk) rest h₂ h'
      → Copied size n (some chunk ∷ rest) h h'
  unfolding bytes is_whole
  Copied-cons size n chunk rest h h₂ h' w c = (
    c.0,
    c.1 ∙ ap (λ l. l ++ bytes rest) w ∙ append_assoc (written h) chunk (bytes rest),
    omega (arith, c.2, length-append chunk (bytes rest)),
  )

  module _ (req : OtaId) (path : FilePath) (total got last : ℕ) where
    abbrev got_after : ℕ → ℕ
    got_after k = env.f64.add got (env.f64.of_u64 k)

    abbrev reported : List ℕ → History → Result (Unit {0}) ℕ × History
    reported chunk h =
        report_progress env false req (percentage env false (got_after (length chunk)) total) last
          (write_chunk chunk ∷ next_chunk ∷ h)

    abbrev last_after : List ℕ → History → ℕ
    last_after chunk h =
        sent req (percentage env false (got_after (length chunk)) total) last
          (write_chunk chunk ∷ next_chunk ∷ h)

    -- a chunk that was written
    copy_body-cons :
        (b : ℕ) (bs : List ℕ) (rest : List (Option (List ℕ))) (h : History)
        → env.write_chunk (write_chunk (b ∷ bs) ∷ next_chunk ∷ h) ≡ true
        → copy_body env false req path total got last (some (b ∷ bs) ∷ rest) h
          ≡ copy_body env false req path total
              (got_after (length (b ∷ bs)))
              (last_after (b ∷ bs) h)
              rest
              (reported (b ∷ bs) h).1
    unfolding copy_body take_chunk
    copy_body-cons b bs rest h w = rw w (rw (report_progress-sent) refl)

    copy_body-unwritten :
        (b : ℕ) (bs : List ℕ) (rest : List (Option (List ℕ))) (h : History)
        → Ok (copy_body env false req path total got last (some (b ∷ bs) ∷ rest) h).0
        → env.write_chunk (write_chunk (b ∷ bs) ∷ next_chunk ∷ h) ≢ false
    unfolding copy_body take_chunk
    copy_body-unwritten b bs rest h o w = cc (rw w at o)

  copy_body-skip :
      (req : OtaId) (path : FilePath) (total got last : ℕ) (rest : List (Option (List ℕ)))
      (h : History)
      → copy_body env false req path total got last (some [] ∷ rest) h
        ≡ copy_body env false req path total got last rest (next_chunk ∷ h)
  unfolding copy_body
  copy_body-skip req path total got last rest h = refl

  copy_body-broken :
      (req : OtaId) (path : FilePath) (total got last : ℕ) (rest : List (Option (List ℕ)))
      (h : History)
      → Ok (copy_body env false req path total got last (none ∷ rest) h).0
      → ⊥
  unfolding copy_body
  copy_body-broken req path total got last rest h o = cc

  end_size :
      (req : OtaId) (path : FilePath) (total got last : ℕ) (h : History)
      → Ok (copy_body env false req path total got last [] h).0
      → env.f64.eq total got ≡ true
  unfolding copy_body
  end_size req path total got last h o = ground arith

  copy_body-Copied :
      (req : OtaId) (path : FilePath) (size got last n : ℕ) (chunks : List (Option (List ℕ)))
      (h : History)
      → IsExact env.f64
      → got ≡ env.f64.of_u64 n
      → size ≤ 2 ^ 53
      → n + length (bytes chunks) ≤ 2 ^ 53
      → Ok (copy_body env false req path (env.f64.of_u64 size) got last chunks h).0
      → Copied size n chunks h
          (copy_body env false req path (env.f64.of_u64 size) got last chunks h).1
  unfolding bytes is_whole written
  copy_body-Copied req path size got last n [] h x g ks kn o =
      let e = end_size req path (env.f64.of_u64 size) got last h o in
      unfold copy_body in
      (
        refl,
        sym (append-nil (written h)),
        omega (arith, x.eq_exact size n ks (omega arith) (rw g at e)),
      )
  copy_body-Copied req path size got last n (none ∷ rest) h x g ks kn o =
      absurd (copy_body-broken req path _ got last rest h o)
  copy_body-Copied req path size got last n (some [] ∷ rest) h x g ks kn o =
      let e = copy_body-skip req path (env.f64.of_u64 size) got last rest h in
      subst (λ p. Copied size n (some [] ∷ rest) h p.1) (sym e)
        (copy_body-Copied req path size got last n rest (next_chunk ∷ h) x g ks kn
          (subst (λ p. Ok p.0) e o))
  copy_body-Copied req path size got last n (some (b ∷ bs) ∷ rest) h x g ks kn o =
      elim (Bool-cases (env.write_chunk (write_chunk (b ∷ bs) ∷ next_chunk ∷ h))) [
        | inr no_space ↦
            absurd
              (copy_body-unwritten req path (env.f64.of_u64 size) got last b bs rest h o no_space)
        | inl w ↦
            let total = env.f64.of_u64 size in
            let k = length (b ∷ bs) in
            let e = copy_body-cons req path total got last b bs rest h w in
            let h₂ = (reported req path total got last (b ∷ bs) h).1 in
            subst (λ p. Copied size n (some (b ∷ bs) ∷ rest) h p.1) (sym e)
              (Copied-cons size n (b ∷ bs) rest h h₂
                (copy_body env false req path total (got_after req path total got last k)
                  (last_after req path total got last (b ∷ bs) h) rest h₂).1
                (report_progress-written req _ last (write_chunk (b ∷ bs) ∷ next_chunk ∷ h))
                (copy_body-Copied req path size (got_after req path total got last k)
                  (last_after req path total got last (b ∷ bs) h) (n + k) rest h₂ x
                  (rw g (x.add_exact n k (omega (arith, length-append (b ∷ bs) (bytes rest))))) ks
                  (omega (arith, length-append (b ∷ bs) (bytes rest))) (subst (λ p. Ok p.0) e o)))
      ]

  module _ (r : Response) (size : ℕ) where
    -- the sizes that `f64` holds exactly
    abbrev pub Fits : Type 0
    Fits = (size ≤ 2 ^ 53) × (length (bytes r.chunks) ≤ 2 ^ 53)

    abbrev pub Saved : History → Type 0
    Saved h =
        (is_whole r.chunks ≡ true) × (written h ≡ bytes r.chunks) × (size ≡ length (bytes r.chunks))

    save_body-Saved :
        (req : OtaId) (path : FilePath) (h : History)
        → IsExact env.f64
        → Fits
        → Ok (save_body env false req path r size h).0
        → Saved (save_body env false req path r size h).1
    unfolding save_body written
    save_body-Saved req path h x f o = elim (Bool-cases (env.create_file (create_file path ∷ h))) [
      | inr failed ↦ absurd (cc (rw failed at o))
      | inl made ↦
          let (whole, same, sized) =
            copy_body-Copied req path size (env.f64.of_u64 0) (env.f64.of_u64 0) 0 r.chunks
              (create_file path ∷ h) x refl f.0 (omega arith) (rw made at o) in
          rw made (whole, same, omega arith)
    ]

    abbrev pub Answers : Type 0
    Answers = (h : History) → env.http_get h ≡ some r

    fetch-Saved :
        (req : OtaId) (path : FilePath) (h : History)
        → IsExact env.f64
        → Fits
        → Answers
        → total_size r ≡ some size
        → Ok (fetch env false req path h).0
        → Saved (fetch env false req path h).1
    unfolding fetch
    fetch-Saved req path h x f a t o =
        let g = a (http_get req.url ∷ h) in
        rw (g, t) (save_body-Saved req path (http_get req.url ∷ h) x f (rw (g, t) at o))

    -- If the server answers with this response, a download that returns `Ok` has written the whole
    -- body to the file, and the body has the announced length. Sizes are at most 2^53.
    pub wget-Saved :
        (req : OtaId) (path : FilePath) (h : History)
        → IsExact env.f64
        → Fits
        → Answers
        → total_size r ≡ some size
        → Ok (wget env false req path h).0
        → Saved (wget env false req path h).1
    unfolding wget
    wget-Saved req path h x f a t o = elim (Bool-cases (env.file_exists (file_exists path ∷ h))) [
      | inr new ↦ rw new (fetch-Saved req path (file_exists path ∷ h) x f a t (rw new at o))
      | inl old ↦ elim (Bool-cases (env.remove_file (remove_file path ∷ file_exists path ∷ h))) [
        | inr failed ↦ absurd (cc (rw (old, failed) at o))
        | inl gone ↦
            rw (old, gone)
              (fetch-Saved req path (remove_file path ∷ file_exists path ∷ h) x f a t
                (rw (old, gone) at o))
      ]
    ]
