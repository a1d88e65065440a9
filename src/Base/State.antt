-- ===== src/Base/State.antt =====
-- Code over a state that may err early: the state is kept beside an error.
use edgehog_device_runtime.Base.Trace.{Result, ok, err}

abbrev pub Stateful {ℓ} : Type ℓ → Type ℓ → Type ℓ → Type ℓ
Stateful S E A = S → Result E A × S

module _ {ℓ} {S E A : Type ℓ} where
  abbrev pub give : A → Stateful S E A
  give a s = (ok a, s)

  abbrev pub fail : E → Stateful S E A
  fail e s = (err e, s)

module _ {ℓ} {S E A B : Type ℓ} where
  abbrev pub and_then : Result E A → (A → Stateful S E B) → Stateful S E B
  and_then (ok a) f s = f a s
  and_then (err e) f s = (err e, s)

  infixl 10 ◌>>=◌ ◌>>◌
  abbrev pub ◌>>=◌ : Stateful S E A → (A → Stateful S E B) → Stateful S E B
  ◌>>=◌ m f s = let (r, s') = m s in and_then r f s'

  abbrev pub ◌>>◌ : Stateful S E A → Stateful S E B → Stateful S E B
  ◌>>◌ m k = m >>= λ _. k

-- What holds of a result and of the state beside it.
abbrev pub Holds {ℓ κ} :
    {S E A : Type ℓ} → (A → S → Type κ) → (E → S → Type κ) → Result E A × S → Type κ
Holds P Q (ok a, s) = P a s
Holds P Q (err e, s) = Q e s

-- What code holds of its result is given to the code after it, and an error passes by.
pub and_then-Holds {ℓ κ} :
    {S E A B : Type ℓ} (P : A → S → Type κ) (R : B → S → Type κ) (Q : E → S → Type κ)
    (next : A → Stateful S E B) (r : Result E A) (s : S)
    → Holds P Q (r, s)
    → ((a : A) (s' : S) → P a s' → Holds R Q (next a s'))
    → Holds R Q (and_then r next s)
and_then-Holds P R Q next (ok a) s p h = h a s p
and_then-Holds P R Q next (err e) s q h = q
