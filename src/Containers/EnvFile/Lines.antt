-- ===== src/Containers/EnvFile/Lines.antt =====
-- The lines of an environment file: parsing and printing.
use edgehog_device_runtime.Base.{
  ℕ, ◌≡◌, ◌≢◌, refl, ap, ◌∙◌, Bool, true, false, ◌==◌, any, arith, String, Option, none, some, [],
  ◌∷◌, ◌++◌, Result, ok, err,
}
use edgehog_device_runtime.Containers.EnvFile.{
  Text, newline, equals, hash, is_whitespace, trim_start, split_once, KeyVal, pair_of, check_key,
  parse_trimmed, parse_line, value_text, print,
}

-- A key that can be printed: it does not start like a comment, and no character is a blank or `=`.
abbrev pub is_key_char : ℕ → Bool
is_key_char c = elim (is_whitespace c) [
  | true ↦ false
  | false ↦ elim (c == equals) [ true ↦ false | false ↦ true ]
]

unfoldable pub is_word : Text → Bool
is_word [] = true
is_word (c ∷ cs) = elim (is_key_char c) [ true ↦ is_word cs | false ↦ false ]

abbrev pub is_key : Text → Bool
is_key [] = false
is_key (c ∷ cs) = elim (c == hash) [ true ↦ false | false ↦ is_word (c ∷ cs) ]

is_word-cons :
    (c : ℕ) (cs : Text)
    → is_word (c ∷ cs) ≡ true
    → (is_whitespace c ≡ false) × ((c == equals) ≡ false) × (is_word cs ≡ true)
unfolding is_word
is_word-cons c cs w = ground arith

split_once-word :
    (key rest : Text) → is_word key ≡ true → split_once (key ++ (equals ∷ rest)) ≡ some (key, rest)
unfolding split_once
split_once-word [] rest w = refl
split_once-word (c ∷ cs) rest w =
    let (blank, other, word) = is_word-cons c cs w in ground (arith, split_once-word cs rest word)

split_once-line : (key : Text) → is_word key ≡ true → split_once (key ++ (newline ∷ [])) ≡ none
unfolding split_once
split_once-line [] w = refl
split_once-line (c ∷ cs) w =
    let (blank, other, word) = is_word-cons c cs w in ground (arith, split_once-line cs word)

word-any : (key : Text) → is_word key ≡ true → any is_whitespace key ≡ false
word-any [] w = refl
word-any (c ∷ cs) w =
    let (blank, other, word) = is_word-cons c cs w in rw (blank, word-any cs word) refl

line-any : (key : Text) → any is_whitespace (key ++ (newline ∷ [])) ≡ true
unfolding is_whitespace
line-any [] = refl
line-any (c ∷ cs) = rw (line-any cs) (ground arith)

is_key-is_word : (key : Text) → is_key key ≡ true → is_word key ≡ true
is_key-is_word [] k = absurd (cc)
is_key-is_word (c ∷ cs) k = ground arith

-- a key is not trimmed and not a comment
parse_line-key :
    (key rest : Text)
    → is_key key ≡ true
    → parse_line (key ++ rest) ≡ check_key (pair_of (key ++ rest) (split_once (key ++ rest)))
unfolding parse_line parse_trimmed trim_start
parse_line-key [] rest k = absurd (cc)
parse_line-key (c ∷ cs) rest k =
    let (blank, other, word) = is_word-cons c cs (is_key-is_word (c ∷ cs) k) in ground arith

-- what is read for the text after `=`
abbrev pub value_of : Text → Option Text
value_of [] = none
value_of (c ∷ cs) = some (c ∷ cs)

abbrev pub entry : Text → Option Text → Result String (Option KeyVal)
entry key value = ok (some (record { key = key; value = value }))

check_pair :
    (key rest : Text)
    → any is_whitespace key ≡ false
    → check_key (pair_of (key ++ (equals ∷ rest)) (some (key, rest))) ≡ entry key (value_of rest)
unfolding check_key
check_pair key [] e = rw e refl
check_pair key (c ∷ cs) e = rw e refl

parse_line-pair :
    (key rest : Text)
    → is_key key ≡ true
    → parse_line (key ++ (equals ∷ rest)) ≡ entry key (value_of rest)
parse_line-pair key rest k =
    parse_line-key key (equals ∷ rest) k
    ∙ rw (split_once-word key rest (is_key-is_word key k))
        (check_pair key rest (word-any key (is_key-is_word key k)))

value_of-value_text : (v : Option Text) → v ≢ some [] → value_of (value_text v) ≡ v
value_of-value_text none n = refl
value_of-value_text (some []) n = absurd (n refl)
value_of-value_text (some (c ∷ cs)) n = refl

-- Parsing is the inverse of printing for an entry whose key is a word that starts no comment and whose
-- value, if it has one, is not empty.
pub parse_line-print :
    (kv : KeyVal) → is_key kv.key ≡ true → kv.value ≢ some [] → parse_line (print kv) ≡ ok (some kv)
unfolding print
parse_line-print kv k v =
    parse_line-pair kv.key (value_text kv.value) k
    ∙ ap (entry kv.key) (value_of-value_text kv.value v)

value_of-line : (value : Text) → value_of (value ++ (newline ∷ [])) ≡ some (value ++ (newline ∷ []))
value_of-line [] = refl
value_of-line (c ∷ cs) = refl

-- With its line end, as `read_line` returns it, a line that holds a key alone is refused, and a line
-- that holds a key and a value is read with the line end as a part of the value.
pub parse_line-newline :
    (key value : Text)
    → is_key key ≡ true
    → (parse_line (key ++ (newline ∷ [])) ≡ err "key cannot container whitespaces")
      × (parse_line (key ++ (equals ∷ (value ++ (newline ∷ []))))
          ≡ entry key (some (value ++ (newline ∷ []))))
unfolding check_key
parse_line-newline key value k =
    let word = is_key-is_word key k in
    (
      parse_line-key key (newline ∷ []) k ∙ rw (split_once-line key word, line-any key) refl,
      parse_line-pair key (value ++ (newline ∷ [])) k ∙ ap (entry key) (value_of-line value),
    )
