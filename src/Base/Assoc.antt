-- ===== src/Base/Assoc.antt =====
-- Association lists for the hash maps of the program: a key stands once at most, and the order of the
-- entries is the order in which the map is iterated.
use mathlib.Core.Path.{◌≡◌, refl, sym, subst}
use mathlib.Core.Logic.{◌≢◌, ite, if_pos, if_neg}
use mathlib.Core.Option.{Option, none, some}
use mathlib.Core.List.{List, [], ◌∷◌}
use native.Mathlib.Omega.{arith}

module _ {ℓ} {K V : Type ℓ} (dec : Discrete K) where
  unfoldable pub get : K → List (K × V) → Option V
  get k [] = none
  get k ((j, v) ∷ m) = ite (dec j k) (some v) (get k m)

  -- `HashMap::insert`
  unfoldable pub put : K → V → List (K × V) → List (K × V)
  put k v [] = (k, v) ∷ []
  put k v ((j, w) ∷ m) = ite (dec j k) ((k, v) ∷ m) ((j, w) ∷ put k v m)

  -- `HashMap::remove`
  unfoldable pub drop_key : K → List (K × V) → List (K × V)
  drop_key k [] = []
  drop_key k ((j, w) ∷ m) = ite (dec j k) (drop_key k m) ((j, w) ∷ drop_key k m)

  -- No key stands twice.
  abbrev pub IsMap : List (K × V) → Type ℓ
  IsMap [] = Unit
  IsMap ((j, v) ∷ m) = (get j m ≡ none) × IsMap m

  pub get-put_self : (k : K) (v : V) (m : List (K × V)) → get k (put k v m) ≡ some v
  unfolding get put
  get-put_self k v [] = ground arith
  get-put_self k v ((j, w) ∷ m) = ground (arith, get-put_self k v m)

  pub get-put_ne : (k q : K) (v : V) (m : List (K × V)) → k ≢ q → get q (put k v m) ≡ get q m
  unfolding get put
  get-put_ne k q v [] h = ground arith
  get-put_ne k q v ((j, w) ∷ m) h = ground (arith, get-put_ne k q v m)

  pub get-drop_key_self : (k : K) (m : List (K × V)) → get k (drop_key k m) ≡ none
  unfolding get drop_key
  get-drop_key_self k [] = refl
  get-drop_key_self k ((j, w) ∷ m) = ground (arith, get-drop_key_self k m)

  pub get-drop_key_ne : (k q : K) (m : List (K × V)) → k ≢ q → get q (drop_key k m) ≡ get q m
  unfolding get drop_key
  get-drop_key_ne k q [] h = refl
  get-drop_key_ne k q ((j, w) ∷ m) h = ground (arith, get-drop_key_ne k q m)

  pub put-IsMap : (k : K) (v : V) (m : List (K × V)) → IsMap m → IsMap (put k v m)
  unfolding get put
  put-IsMap k v [] h = (refl, tt)
  put-IsMap k v ((j, w) ∷ m) h = elim (dec j k) [
    | yes e ↦ rw (if_pos _ e) (subst (λ i. get i m ≡ none) e h.0, h.1)
    | no n ↦ rw (if_neg _ n) (rw (get-put_ne k j v m (λ e. n (sym e))) h.0, put-IsMap k v m h.1)
  ]
