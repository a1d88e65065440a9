-- ===== src/Base/Trace.antt =====
-- Code that awaits calls to the outside: the history holds the calls made so far, the latest first,
-- and what a call answers is a function of it. A computation may err early, with a reason.
use mathlib.Core.List.{List, ◌∷◌}

pub data Result {ℓ} (E A : Type ℓ) : Type ℓ where
  ok : A → Result E A
  err : E → Result E A

abbrev pub Exec {ℓ} : Type ℓ → Type ℓ → Type ℓ → Type ℓ
Exec C E A = List C → Result E A × List C

module _ {ℓ} {C E A : Type ℓ} where
  abbrev pub pure : A → Exec C E A
  pure a h = (ok a, h)

  abbrev pub raise : E → Exec C E A
  raise e h = (err e, h)

  -- A call is recorded, then answered.
  abbrev pub call : C → (List C → A) → Exec C E A
  call c answer h = (ok (answer (c ∷ h)), c ∷ h)

module _ {ℓ} {C E A B : Type ℓ} where
  abbrev pub continue : Result E A → (A → Exec C E B) → Exec C E B
  continue (ok a) f h = f a h
  continue (err e) f h = (err e, h)

  infixl 10 ◌>>=◌ ◌>>◌
  abbrev pub ◌>>=◌ : Exec C E A → (A → Exec C E B) → Exec C E B
  ◌>>=◌ m f h = let (o, h') = m h in continue o f h'

  abbrev pub ◌>>◌ : Exec C E A → Exec C E B → Exec C E B
  ◌>>◌ m k = m >>= λ _. k

-- What holds of the value, if there is one.
abbrev pub When {ℓ κ} : {E A : Type ℓ} → (A → Type κ) → Result E A → Type κ
When P (ok a) = P a
When P (err e) = Unit

module _ {ℓ κ} {C E A B : Type ℓ} (P : B → Type κ) where
  When-continue :
      (r : Result E A) (f : A → Exec C E B) (h : List C)
      → ((a : A) (h' : List C) → When P (f a h').0)
      → When P (continue r f h).0
  When-continue (ok a) f h all = all a h
  When-continue (err e) f h all = tt

  pub When-bind :
      (m : Exec C E A) (f : A → Exec C E B) (h : List C)
      → ((a : A) (h' : List C) → When P (f a h').0)
      → When P ((m >>= f) h).0
  When-bind m f h all = let (r, h') = m h in When-continue r f h' all

-- There is a value, and this holds of it.
abbrev pub Must {ℓ} : {E A : Type ℓ} → (A → Type 0) → Result E A → Type 0
Must P (ok a) = P a
Must P (err e) = ⊥

module _ {ℓ} {C E A B : Type ℓ} (Q : A → Type 0) (P : B → Type 0) where
  Must-continue :
      (r : Result E A) (f : A → Exec C E B) (h : List C)
      → Must Q r
      → ((a : A) (h' : List C) → Q a → Must P (f a h').0)
      → Must P (continue r f h).0
  Must-continue (ok a) f h q all = all a h q
  Must-continue (err e) f h q all = q

  pub Must-bind :
      (m : Exec C E A) (f : A → Exec C E B) (h : List C)
      → Must Q (m h).0
      → ((a : A) (h' : List C) → Q a → Must P (f a h').0)
      → Must P ((m >>= f) h).0
  Must-bind m f h q all = let (r, h') = m h in Must-continue r f h' q all
