-- ===== src/Containers/EnvFile/Tests.antt =====
-- The theorems on environment files at concrete inputs, and runs of the model.
use edgehog_device_runtime.Base.{◌≡◌, ◌≢◌, refl, arith, none, some, [], ◌∷◌, ◌++◌, ok, err}
use edgehog_device_runtime.Containers.EnvFile.{
  Text, is_whitespace, trim_start, split_once, KeyVal, check_key, parse_trimmed, parse_line, print,
  validate, next_env, read_line, control_of, env,
}
use edgehog_device_runtime.Containers.EnvFile.Lines.{
  is_word, entry, parse_line-print, parse_line-newline,
}
use edgehog_device_runtime.Containers.EnvFile.Reader.{Returns, validate-Returns}

-- the text `foo`
abbrev foo : Text
foo = 102 ∷ 111 ∷ 111 ∷ []

abbrev foo_bar : KeyVal
foo_bar = record { key = foo; value = some (98 ∷ 97 ∷ 114 ∷ []) }

-- the test `    baz=quux` of the source, with another text
parses_blanks : parse_line (32 ∷ 9 ∷ (foo ++ (61 ∷ 98 ∷ []))) ≡ entry foo (some (98 ∷ []))
unfolding parse_line trim_start parse_trimmed split_once check_key is_whitespace
parses_blanks = refl

parses_comment : parse_line (35 ∷ foo) ≡ ok none
unfolding parse_line trim_start parse_trimmed split_once check_key is_whitespace
parses_comment = refl

parses_empty_value : parse_line (foo ++ (61 ∷ [])) ≡ entry foo none
unfolding parse_line trim_start parse_trimmed split_once check_key is_whitespace
parses_empty_value = refl

-- a file of one line that holds a key alone
refuses_key : validate 5 (foo ++ (10 ∷ [])) ≡ some (err (env "key cannot container whitespaces"))
unfolding validate next_env read_line control_of parse_line trim_start parse_trimmed split_once
    check_key is_whitespace
refuses_key = refl

foo_bar-value : foo_bar.value ≢ some []
foo_bar-value e = cc

parse_line-print_example : parse_line (print foo_bar) ≡ ok (some foo_bar)
unfolding is_word is_whitespace
parse_line-print_example = parse_line-print foo_bar refl foo_bar-value

parse_line-newline_example :
    (parse_line (foo ++ (10 ∷ [])) ≡ err "key cannot container whitespaces")
    × (parse_line (foo ++ (61 ∷ (98 ∷ 10 ∷ []))) ≡ entry foo (some (98 ∷ 10 ∷ [])))
unfolding is_word is_whitespace
parse_line-newline_example = parse_line-newline foo (98 ∷ []) refl

validate-Returns_example : Returns (validate 5 (foo ++ (10 ∷ [])))
validate-Returns_example = validate-Returns 5 (foo ++ (10 ∷ [])) (omega arith)
