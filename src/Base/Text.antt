-- ===== src/Base/Text.antt =====
-- Texts as lists of code points, with the operations of `str` that the parsers call, and numbers in
-- decimal form.
use Prim.Native.Nat.{ℕ, zero, suc, ◌+◌, ◌-◌, ◌*◌, ◌/◌, ◌%◌, ◌<◌}
use mathlib.Core.Path.{◌≡◌, refl, ap}
use mathlib.Core.Logic.{◌↔◌}
use mathlib.Core.Bool.{Bool, true, false, ◌&&◌}
use mathlib.Core.Option.{Option, none, some}
use mathlib.Core.List.{List, [], ◌∷◌, ◌++◌}
use native.Mathlib.Omega.{arith}
use edgehog_device_runtime.Base.Tests.{ltb, leb, ◌==◌, ==_iff}

abbrev pub Text : Type 0
Text = List ℕ

abbrev onto_first : ℕ → Option (Text × Text) → Option (Text × Text)
onto_first c none = none
onto_first c (some (first, rest)) = some (c ∷ first, rest)

abbrev cut : Bool → ℕ → Text → Option (Text × Text) → Option (Text × Text)
cut true c cs o = some ([], cs)
cut false c cs o = onto_first c o

-- `str::split_once`
unfoldable pub split_once : ℕ → Text → Option (Text × Text)
split_once sep [] = none
split_once sep (c ∷ cs) = cut (c == sep) c cs (split_once sep cs)

-- `str::strip_prefix`
unfoldable pub strip_prefix : Text → Text → Option Text
strip_prefix [] text = some text
strip_prefix (p ∷ ps) [] = none
strip_prefix (p ∷ ps) (c ∷ cs) = elim (c == p) [ true ↦ strip_prefix ps cs | false ↦ none ]

abbrev pub is_digit : ℕ → Bool
is_digit c = leb b'0' c && leb c b'9'

-- the number that digits spell behind `n`, if it stays under the bound
unfoldable pub read_digits : ℕ → Text → ℕ → Option ℕ
read_digits bound [] n = some n
read_digits bound (c ∷ cs) n =
    let m = n * 10 + (c - b'0') in
    elim (is_digit c && ltb m bound) [ true ↦ read_digits bound cs m | false ↦ none ]

unfoldable pub read_unsigned : ℕ → Text → Option ℕ
read_unsigned bound [] = none
read_unsigned bound (c ∷ cs) = read_digits bound (c ∷ cs) 0

-- `str::parse` of an unsigned integer below the bound: a `+` may stand before the digits.
unfoldable pub parse_unsigned : ℕ → Text → Option ℕ
parse_unsigned bound [] = none
parse_unsigned bound (c ∷ cs) = elim (c == b'+') [
  | true ↦ read_unsigned bound cs
  | false ↦ read_digits bound (c ∷ cs) 0
]

unfoldable pub put_digits : ℕ → ℕ → Text → Text
put_digits zero n out = out
put_digits (suc fuel) n out =
    let out' = (b'0' + n % 10) ∷ out in
    elim (n / 10 == 0) [ true ↦ out' | false ↦ put_digits fuel (n / 10) out' ]

-- `Display` of an unsigned integer
unfoldable pub decimal : ℕ → Text
decimal n = put_digits (suc n) n []

-- No character of the text is the separator.
unfoldable pub lacks : ℕ → Text → Bool
lacks sep [] = true
lacks sep (c ∷ cs) = elim (c == sep) [ true ↦ false | false ↦ lacks sep cs ]

pub split_once-append :
    (sep : ℕ) (text rest : Text)
    → lacks sep text ≡ true
    → split_once sep (text ++ (sep ∷ rest)) ≡ some (text, rest)
unfolding split_once lacks
split_once-append sep [] rest h = ground arith
split_once-append sep (c ∷ cs) rest h = ground (arith, split_once-append sep cs rest)

pub split_once-lacks : (sep : ℕ) (text : Text) → lacks sep text ≡ true → split_once sep text ≡ none
unfolding split_once lacks
split_once-lacks sep [] h = refl
split_once-lacks sep (c ∷ cs) h = ground (arith, split_once-lacks sep cs)

pub lacks-append :
    (sep : ℕ) (first rest : Text)
    → lacks sep first ≡ true
    → lacks sep rest ≡ true
    → lacks sep (first ++ rest) ≡ true
unfolding lacks
lacks-append sep [] rest h k = k
lacks-append sep (c ∷ cs) rest h k = ground (arith, lacks-append sep cs rest)

pub strip_prefix-append : (p text : Text) → strip_prefix p (p ++ text) ≡ some text
unfolding strip_prefix
strip_prefix-append [] text = refl
strip_prefix-append (c ∷ cs) text = ground (arith, strip_prefix-append cs text)

put_digits-lacks :
    (sep fuel n : ℕ) (out : Text)
    → is_digit sep ≡ false
    → lacks sep out ≡ true
    → lacks sep (put_digits fuel n out) ≡ true
unfolding put_digits lacks
put_digits-lacks sep zero n out h k = k
put_digits-lacks sep (suc fuel) n out h k =
    ground (arith, put_digits-lacks sep fuel (n / 10) ((b'0' + n % 10) ∷ out))

-- A character that is no digit is not in a number.
pub decimal-lacks : (sep n : ℕ) → is_digit sep ≡ false → lacks sep (decimal n) ≡ true
unfolding decimal lacks
decimal-lacks sep n h = put_digits-lacks sep (suc n) n [] h refl

read_digits-put_digits :
    (bound fuel n : ℕ) (out : Text)
    → n < fuel
    → n < bound
    → read_digits bound (put_digits fuel n out) 0 ≡ read_digits bound out n
unfolding read_digits put_digits
read_digits-put_digits bound zero n out h k = absurd (omega (arith, h))
read_digits-put_digits bound (suc fuel) n out h k =
    ground (arith, read_digits-put_digits bound fuel (n / 10) ((b'0' + n % 10) ∷ out))

-- how a number begins: with a digit
abbrev pub IsNumber : Text → Type 0
IsNumber [] = ⊥
IsNumber (c ∷ cs) = is_digit c ≡ true

put_digits-IsNumber : (fuel n : ℕ) (out : Text) → IsNumber out → IsNumber (put_digits fuel n out)
unfolding put_digits
put_digits-IsNumber zero n out h = h
put_digits-IsNumber (suc fuel) n out h =
    ground (arith, put_digits-IsNumber fuel (n / 10) ((b'0' + n % 10) ∷ out))

pub decimal-IsNumber : (n : ℕ) → IsNumber (decimal n)
unfolding decimal put_digits
decimal-IsNumber n = ground (arith, put_digits-IsNumber n (n / 10) ((b'0' + n % 10) ∷ []))

pub parse_unsigned-number :
    (bound : ℕ) (text : Text) → IsNumber text → parse_unsigned bound text ≡ read_digits bound text 0
unfolding parse_unsigned
parse_unsigned-number bound [] h = absurd h
parse_unsigned-number bound (c ∷ cs) h = ground arith

-- A number under the bound is read back from its decimal form.
pub parse_unsigned-decimal : (bound n : ℕ) → n < bound → parse_unsigned bound (decimal n) ≡ some n
unfolding decimal read_digits
parse_unsigned-decimal bound n h =
    rw (parse_unsigned-number bound (decimal n) (decimal-IsNumber n))
      (read_digits-put_digits bound (suc n) n [] (omega arith) h)

-- The two parts with the separator between them are the text.
abbrev pub Splits : ℕ → Text → Option (Text × Text) → Type 0
Splits sep text none = lacks sep text ≡ true
Splits sep text (some (first, rest)) = text ≡ first ++ (sep ∷ rest)

onto_first-Splits :
    (sep c : ℕ) (cs : Text) (o : Option (Text × Text))
    → (c == sep) ≡ false
    → Splits sep cs o
    → Splits sep (c ∷ cs) (onto_first c o)
unfolding lacks
onto_first-Splits sep c cs none other h = rw (other, Splits, lacks) h
onto_first-Splits sep c cs (some (a, b)) other h = ap (λ t. c ∷ t) h

cut-Splits :
    (sep c : ℕ) (cs : Text) (b : Bool) (o : Option (Text × Text))
    → (c == sep) ≡ b
    → Splits sep cs o
    → Splits sep (c ∷ cs) (cut b c cs o)
cut-Splits sep c cs true o same h = ap (λ k. k ∷ cs) ((==_iff c sep).0 same)
cut-Splits sep c cs false o other h = onto_first-Splits sep c cs o other h

pub split_once-Splits : (sep : ℕ) (text : Text) → Splits sep text (split_once sep text)
unfolding split_once lacks
split_once-Splits sep [] = refl
split_once-Splits sep (c ∷ cs) =
    cut-Splits sep c cs (c == sep) (split_once sep cs) refl (split_once-Splits sep cs)

read_digits-bound :
    (bound : ℕ) (text : Text) (n m : ℕ) → n < bound → read_digits bound text n ≡ some m → m < bound
unfolding read_digits
read_digits-bound bound [] n m l e = ground arith
read_digits-bound bound (c ∷ cs) n m l e =
    ground (arith, read_digits-bound bound cs (n * 10 + (c - b'0')) m)

-- A number that is parsed is under the bound.
pub parse_unsigned-bound :
    (bound : ℕ) (text : Text) (m : ℕ) → 0 < bound → parse_unsigned bound text ≡ some m → m < bound
unfolding parse_unsigned read_unsigned
parse_unsigned-bound bound [] m l e = absurd (cc)
parse_unsigned-bound bound (c ∷ []) m l e = ground (arith, read_digits-bound bound (c ∷ []) 0 m)
parse_unsigned-bound bound (c ∷ d ∷ cs) m l e =
    ground (arith, read_digits-bound bound (c ∷ d ∷ cs) 0 m, read_digits-bound bound (d ∷ cs) 0 m)

-- whether two texts are the same
unfoldable pub same : Text → Text → Bool
same [] [] = true
same (c ∷ cs) (d ∷ ds) = (c == d) && same cs ds
same _ _ = false

pub same_iff : (s t : Text) → (same s t ≡ true) ↔ (s ≡ t)
unfolding same
same_iff [] [] = (λ _. refl, λ _. refl)
same_iff [] (d ∷ ds) = (λ e. absurd (cc), λ e. absurd (cc))
same_iff (c ∷ cs) [] = (λ e. absurd (cc), λ e. absurd (cc))
same_iff (c ∷ cs) (d ∷ ds) = grind (arith, same_iff cs ds)
