-- ===== src/Containers/EnvFile.antt =====
-- The reader of environment files: resource/env_file/parser.rs of edgehog-device-runtime-containers. A
-- text is a list of code points, and a file a text that is valid UTF-8 and is read without an error.
pub mod Lines
pub mod Reader
mod Tests
use edgehog_device_runtime.Base.{
  ℕ, zero, suc, ◌+◌, ◌-◌, Bool, true, false, ◌&&◌, ◌||◌, ◌==◌, leb, any, if◌then◌else◌, String,
  Option, none, some, List, [], ◌∷◌, ◌++◌, Result, ok, err,
}

abbrev pub Text : Type 0
Text = List ℕ

abbrev pub newline : ℕ
newline = 10

abbrev pub equals : ℕ
equals = 61

abbrev pub hash : ℕ
hash = 35

-- `char::is_whitespace`
unfoldable pub is_whitespace : ℕ → Bool
is_whitespace c =
    (leb 9 c && leb c 13)
    || c == 32
    || c == 133
    || c == 160
    || c == 5760
    || (leb 8192 c && leb c 8202)
    || c == 8232
    || c == 8233
    || c == 8239
    || c == 8287
    || c == 12288

unfoldable pub trim_start : Text → Text
trim_start [] = []
trim_start (c ∷ cs) = elim (is_whitespace c) [ true ↦ trim_start cs | false ↦ c ∷ cs ]

abbrev pub onto_key : ℕ → Option (Text × Text) → Option (Text × Text)
onto_key c none = none
onto_key c (some (key, value)) = some (c ∷ key, value)

-- `line.split_once('=')`
unfoldable pub split_once : Text → Option (Text × Text)
split_once [] = none
split_once (c ∷ cs) = elim (c == equals) [
  | true ↦ some ([], cs)
  | false ↦ onto_key c (split_once cs)
]

pub record KeyVal : Type 0 where
  pub key : Text
  pub value : Option Text

abbrev pub pair_of : Text → Option (Text × Text) → KeyVal
pair_of line none = record { key = line; value = none }
pair_of line (some (key, [])) = record { key = key; value = none }
pair_of line (some (key, c ∷ cs)) = record { key = key; value = some (c ∷ cs) }

unfoldable pub check_key : KeyVal → Result String (Option KeyVal)
check_key kv =
    if any is_whitespace kv.key then err "key cannot container whitespaces" else ok (some kv)

unfoldable pub parse_trimmed : Text → Result String (Option KeyVal)
parse_trimmed [] = ok none
parse_trimmed (c ∷ cs) = elim (c == hash) [
  | true ↦ ok none
  | false ↦ check_key (pair_of (c ∷ cs) (split_once (c ∷ cs)))
]

unfoldable pub parse_line : Text → Result String (Option KeyVal)
parse_line line = parse_trimmed (trim_start line)

abbrev pub value_text : Option Text → Text
value_text none = []
value_text (some value) = value

-- `Display` of `KeyVal`
unfoldable pub print : KeyVal → Text
print kv = kv.key ++ (equals ∷ value_text kv.value)

pub data EnvError : Type 0 where
  io : EnvError
  env : String → EnvError

-- the bytes of a character
abbrev pub len_utf8 : ℕ → ℕ
len_utf8 c = if leb c 127 then 1 else if leb c 2047 then 2 else if leb c 65535 then 3 else 4

abbrev pub limit : ℕ
limit = 65536

abbrev pub onto_line : ℕ → Option (Text × Text) → Option (Text × Text)
onto_line c none = none
onto_line c (some (line, rest)) = some (c ∷ line, rest)

-- `read_line` on so many bytes: the line with its end, and the rest of the file. A character that is
-- cut by the limit is invalid UTF-8.
unfoldable pub read_line : ℕ → Text → Option (Text × Text)
read_line bytes [] = some ([], [])
read_line zero (c ∷ cs) = some ([], c ∷ cs)
read_line (suc k) (c ∷ cs) = elim (leb (len_utf8 c) (suc k)) [
  | false ↦ none
  | true ↦ elim (c == newline) [
    | true ↦ some (c ∷ [], cs)
    | false ↦ onto_line c (read_line (suc k - len_utf8 c) cs)
  ]
]

-- `ControlFlow`: the end of the file, or an entry and the rest of the file
pub data Control : Type 0 where
  break : Control
  continue_with : Option KeyVal → Text → Control

abbrev pub entry_of : Text → Result String (Option KeyVal) → Result EnvError Control
entry_of rest (ok entry) = ok (continue_with entry rest)
entry_of rest (err message) = err (env message)

unfoldable pub control_of : Option (Text × Text) → Result EnvError Control
control_of none = err io
control_of (some ([], rest)) = ok break
control_of (some (c ∷ line, rest)) = entry_of rest (parse_line (c ∷ line))

unfoldable pub next_env : Text → Result EnvError Control
next_env file = control_of (read_line limit file)

-- The `while` loop on fuel: `none` if it runs out.
unfoldable pub validate : ℕ → Text → Option (Result EnvError (Unit {0}))
validate zero file = none
validate (suc fuel) file = elim (next_env file) [
  | err e ↦ some (err e)
  | ok break ↦ some (ok tt)
  | ok (continue_with entry rest) ↦ validate fuel rest
]
