-- ===== src/Containers/EnvFile/Reader.antt =====
-- Reading a whole environment file.
use edgehog_device_runtime.Base.{
  ℕ, zero, suc, ◌-◌, ◌≤◌, ◌<◌, ◌≡◌, refl, sym, subst, Bool, true, false, ◌==◌, leb, arith, String,
  Option, none, some, [], ◌∷◌, Result, ok, err, length,
}
use edgehog_device_runtime.Containers.EnvFile.{
  Text, newline, onto_line, read_line, limit, len_utf8, KeyVal, EnvError, Control, break,
  continue_with, entry_of, parse_line, control_of, next_env, validate,
}

-- what is left of a file that is read once: less, unless the file is at its end
abbrev Shrinks : ℕ → Option (Text × Text) → Type 0
Shrinks n none = Unit
Shrinks n (some ([], rest)) = Unit
Shrinks n (some (c ∷ line, rest)) = length rest < n

abbrev Fits : ℕ → Option (Text × Text) → Type 0
Fits n none = Unit
Fits n (some (line, rest)) = length rest ≤ n

-- a line that begins with this character
abbrev begun_with : ℕ → Text → Option (Text × Text) → (fits ends : Bool) → Option (Text × Text)
begun_with c cs o fits ends = elim fits [
  | false ↦ none
  | true ↦ elim ends [ true ↦ some (c ∷ [], cs) | false ↦ onto_line c o ]
]

begun_with-Shrinks :
    (c : ℕ) (cs : Text) (o : Option (Text × Text)) (fits ends : Bool)
    → Fits (length cs) o
    → Shrinks (suc (length cs)) (begun_with c cs o fits ends)
begun_with-Shrinks c cs o false ends f = tt
begun_with-Shrinks c cs o true true f = omega arith
begun_with-Shrinks c cs none true false f = tt
begun_with-Shrinks c cs (some (line, rest)) true false f = omega (arith, f)

begun_with-Fits :
    (c : ℕ) (cs : Text) (o : Option (Text × Text)) (fits ends : Bool)
    → Fits (length cs) o
    → Fits (suc (length cs)) (begun_with c cs o fits ends)
begun_with-Fits c cs o false ends f = tt
begun_with-Fits c cs o true true f = omega arith
begun_with-Fits c cs none true false f = tt
begun_with-Fits c cs (some (line, rest)) true false f = omega (arith, f)

read_line-cons :
    (k c : ℕ) (cs : Text)
    → read_line (suc k) (c ∷ cs)
      ≡ begun_with c cs
          (read_line (suc k - len_utf8 c) cs)
          (leb (len_utf8 c) (suc k))
          (c == newline)
unfolding read_line
read_line-cons k c cs = refl

read_line-Fits : (bytes : ℕ) (file : Text) → Fits (length file) (read_line bytes file)
read_line-Fits bytes [] = unfold read_line in omega arith
read_line-Fits zero (c ∷ cs) = unfold read_line in omega arith
read_line-Fits (suc k) (c ∷ cs) = subst (Fits (suc (length cs))) (sym (read_line-cons k c cs)) (
    begun_with-Fits c cs (read_line (suc k - len_utf8 c) cs) (leb (len_utf8 c) (suc k))
      (c == newline) (read_line-Fits (suc k - len_utf8 c) cs))

read_line-Shrinks : (k : ℕ) (file : Text) → Shrinks (length file) (read_line (suc k) file)
read_line-Shrinks k [] = unfold read_line in tt
read_line-Shrinks k (c ∷ cs) = subst (Shrinks (suc (length cs))) (sym (read_line-cons k c cs)) (
    begun_with-Shrinks c cs (read_line (suc k - len_utf8 c) cs) (leb (len_utf8 c) (suc k))
      (c == newline) (read_line-Fits (suc k - len_utf8 c) cs))

-- what is left after an entry
abbrev Left : ℕ → Result EnvError Control → Type 0
Left n (ok (continue_with entry rest)) = length rest < n
Left n _ = Unit

entry_of-Left :
    (n : ℕ) (rest : Text) (r : Result String (Option KeyVal))
    → length rest < n
    → Left n (entry_of rest r)
entry_of-Left n rest (ok entry) l = l
entry_of-Left n rest (err message) l = tt

control_of-Left : (n : ℕ) (o : Option (Text × Text)) → Shrinks n o → Left n (control_of o)
unfolding control_of
control_of-Left n none s = tt
control_of-Left n (some ([], rest)) s = tt
control_of-Left n (some (c ∷ line, rest)) s = entry_of-Left n rest (parse_line (c ∷ line)) s

next_env-Left : (file : Text) → Left (length file) (next_env file)
unfolding next_env
next_env-Left file =
    control_of-Left (length file) (read_line limit file) (read_line-Shrinks 65535 file)

abbrev pub Returns : Option (Result EnvError (Unit {0})) → Type 0
Returns o = (r : Result EnvError (Unit {0})) × (o ≡ some r)

-- a round of the loop
abbrev after : ℕ → Result EnvError Control → Option (Result EnvError (Unit {0}))
after fuel (err e) = some (err e)
after fuel (ok break) = some (ok tt)
after fuel (ok (continue_with entry rest)) = validate fuel rest

validate-suc : (fuel : ℕ) (file : Text) → validate (suc fuel) file ≡ after fuel (next_env file)
unfolding validate
validate-suc fuel file = refl

after-Returns :
    (fuel n : ℕ) (r : Result EnvError Control)
    → Left n r
    → n ≤ fuel
    → ((rest : Text) → length rest < fuel → Returns (validate fuel rest))
    → Returns (after fuel r)
after-Returns fuel n (err e) l f all = (err e, refl)
after-Returns fuel n (ok break) l f all = (ok tt, refl)
after-Returns fuel n (ok (continue_with entry rest)) l f all = all rest (omega (arith, l, f))

-- Validation ends on every file, with a result: one round more than there are characters is enough.
pub validate-Returns : (fuel : ℕ) (file : Text) → length file < fuel → Returns (validate fuel file)
validate-Returns zero file l = absurd (omega (arith, l))
validate-Returns (suc fuel) file l = subst Returns (sym (validate-suc fuel file)) (
    after-Returns fuel (length file) (next_env file) (next_env-Left file) (omega (arith, l))
      (validate-Returns fuel))
