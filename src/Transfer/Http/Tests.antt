-- ===== src/Transfer/Http/Tests.antt =====
-- The theorems on the requests of a download at concrete inputs, and runs of the model.
use edgehog_device_runtime.Base.{ℕ, zero, suc, ◌≡◌, refl, Option, none, some, [], ◌∷◌, ok, err}
use edgehog_device_runtime.Base.Text.{
  split_once, strip_prefix, parse_unsigned, read_digits, decimal, put_digits, same,
}
use edgehog_device_runtime.Transfer.Http.{
  Response, mismatch, get, get_from, Env, parse_u64, parse_total, all_parts, range_and_total,
  parse_parts, parse_stripped, parse_content_range, parse_unsatisfiable_content_range, parse_length,
  check_total, expect_one, check_last, check_end, content_length_of, partial_of, unsatisfied_of,
  check_response, downloaded, full_length, full_response, full_request, follow, range_response,
  download,
}
use edgehog_device_runtime.Transfer.Http.Headers.{print_range, print_unsatisfied}

abbrev partial : Response
partial = record {
  status = 206;
  content_length = [];
  content_range = some (print_range 5 11 (some 12)) ∷ [];
  body = 1;
}

abbrev unsatisfied : Response
unsatisfied = record {
  status = 416;
  content_length = [];
  content_range = some (print_unsatisfied 12) ∷ [];
  body = 2;
}

abbrev whole : Response
whole = record {
  status = 200;
  content_length = some (decimal 12) ∷ [];
  content_range = [];
  body = 3;
}

-- A server that has 12 bytes, and serves ranges.
abbrev range_answer : ℕ → Option Response
range_answer (suc (suc (suc (suc (suc zero))))) = some partial
range_answer _ = some unsatisfied

abbrev env : Env
env (get ∷ _) = some whole
env (get_from n ∷ _) = range_answer n
env [] = none

downloads_range :
    download env 5 (some 12) []
    ≡ (ok (record { response = partial; start = 5; total_length = some 12 }), get_from 5 ∷ [])
unfolding download range_response check_response expect_one partial_of parse_content_range
    parse_stripped strip_prefix split_once parse_parts range_and_total all_parts parse_total same
    parse_u64 parse_unsigned read_digits decimal put_digits check_end check_last follow check_total
    downloaded
downloads_range = refl

downloads_whole :
    download env 12 none []
    ≡ (ok (record { response = whole; start = 0; total_length = some 12 }), get ∷ get_from 12 ∷ [])
unfolding download range_response check_response expect_one unsatisfied_of
    parse_unsatisfiable_content_range parse_length strip_prefix parse_u64 parse_unsigned read_digits
    decimal put_digits follow check_total full_request full_response full_length content_length_of
    downloaded
downloads_whole = refl

refuses_total : download env 5 (some 13) [] ≡ (err mismatch, get_from 5 ∷ [])
unfolding download range_response check_response expect_one partial_of parse_content_range
    parse_stripped strip_prefix split_once parse_parts range_and_total all_parts parse_total same
    parse_u64 parse_unsigned read_digits decimal put_digits check_end check_last follow check_total
    downloaded
refuses_total = refl
