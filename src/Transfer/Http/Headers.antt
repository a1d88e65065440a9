-- ===== src/Transfer/Http/Headers.antt =====
-- The header `Content-Range` of a response: `parse_content_range`,
-- `parse_unsatisfiable_content_range` and `check_response` of src/file_transfer/http/mod.rs.
use edgehog_device_runtime.Base.{
  ℕ, ◌+◌, ◌<◌, ◌≡◌, refl, ◌↔◌, arith, false, Option, none, some, [], ◌∷◌, ◌++◌, ok,
}
use edgehog_device_runtime.Base.Text.{
  Text, split_once, decimal, lacks, same, split_once-append, decimal-lacks, lacks-append,
  strip_prefix-append, parse_unsigned-decimal, decimal-IsNumber, IsNumber,
}
use edgehog_device_runtime.Transfer.Http.{
  bound, Response, content, parse_u64, bytes, star, parse_total, all_parts, range_and_total,
  parse_parts, parse_stripped, parse_content_range, bytes_of, parse_length,
  parse_unsatisfiable_content_range, expect_one, check_last, check_end, partial_of, check_response,
}

-- a total as it is printed
abbrev pub print_total : Option ℕ → Text
print_total none = star
print_total (some n) = decimal n

-- the values of `Content-Range` of a partial response, and of one that is not satisfiable
abbrev pub print_range : ℕ → ℕ → Option ℕ → Text
print_range start last total =
    bytes ++ (decimal start ++ (b'-' ∷ decimal last)) ++ (b'/' ∷ print_total total)

abbrev pub print_unsatisfied : ℕ → Text
print_unsatisfied n = bytes_of ++ decimal n

abbrev pub IsU64 : Option ℕ → Type 0
IsU64 none = Unit
IsU64 (some n) = n < bound

u64-decimal : (n : ℕ) → n < bound → parse_u64 (decimal n) ≡ some n
unfolding parse_u64
u64-decimal n l = parse_unsigned-decimal bound n l

number-star : (text : Text) → IsNumber text → same text star ≡ false
unfolding same
number-star [] h = absurd h
number-star (c ∷ cs) h = ground arith

total-print : (total : Option ℕ) → IsU64 total → parse_total (print_total total) ≡ some total
unfolding parse_total same
total-print none l = refl
total-print (some n) l = rw (number-star (decimal n) (decimal-IsNumber n), u64-decimal n l) refl

range-split :
    (start last : ℕ) (total : Option ℕ)
    → split_once b'/' ((decimal start ++ (b'-' ∷ decimal last)) ++ (b'/' ∷ print_total total))
      ≡ some (decimal start ++ (b'-' ∷ decimal last), print_total total)
unfolding lacks
range-split start last total =
    split_once-append b'/' (decimal start ++ (b'-' ∷ decimal last)) (print_total total) (
      lacks-append b'/' (decimal start) (b'-' ∷ decimal last) (decimal-lacks b'/' start refl)
        (decimal-lacks b'/' last refl))

-- The header of a range, and that of one that is not satisfiable, are parsed as what is printed, for
-- numbers that are `u64`. A total that is unknown is printed as `*`.
pub parse_content_range-print :
    (start last n : ℕ) (total : Option ℕ)
    → start < bound
    → last < bound
    → n < bound
    → IsU64 total
    → (parse_content_range (print_range start last total) ≡ some (start, last, total))
      × (parse_unsatisfiable_content_range (print_unsatisfied n) ≡ some n)
unfolding parse_content_range parse_stripped parse_parts range_and_total all_parts
    parse_unsatisfiable_content_range parse_length
parse_content_range-print start last n total l l' m t = (
  rw
      (
        strip_prefix-append bytes
            ((decimal start ++ (b'-' ∷ decimal last)) ++ (b'/' ∷ print_total total)),
        range-split start last total,
        split_once-append b'-' (decimal start) (decimal last) (decimal-lacks b'-' start refl),
        u64-decimal start l,
        u64-decimal last l',
        total-print total t,
      )
      refl,
  rw (strip_prefix-append bytes_of (decimal n), u64-decimal n m) refl,
)

-- A partial response, with one header for its range.
abbrev pub IsPartial : ℕ → ℕ → Option ℕ → Response → Type 0
IsPartial start last total r =
    (r.status ≡ 206) × (r.content_range ≡ some (print_range start last total) ∷ [])

check_response-range :
    (start last : ℕ) (total : Option ℕ) (r : Response)
    → start < bound
    → last < bound
    → IsU64 total
    → IsPartial start last total r
    → check_response r ≡ check_end (some (start, last, total))
unfolding check_response expect_one partial_of
check_response-range start last total r l l' t (status, one) =
    rw (status, one, (parse_content_range-print start last 0 total l l' (omega arith) t).0) refl

-- A partial response of a known total is accepted, with its start and its total, exactly if its range
-- reaches the end: if the total is the position of its last byte and one.
pub check_response_iff :
    (start last n : ℕ) (r : Response)
    → start < bound
    → last < bound
    → n < bound
    → IsPartial start last (some n) r
    → (check_response r ≡ ok (content start (some n))) ↔ (n ≡ last + 1)
unfolding check_end check_last
check_response_iff start last n r l l' m p =
    rw (check_response-range start last (some n) r l l' m p)
      (λ e. ground (arith, e), λ e. ground (arith, e, m))
