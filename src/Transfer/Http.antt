-- ===== src/Transfer/Http.antt =====
-- The requests of a download: `FtHttpClient` of src/file_transfer/http/mod.rs. A request is a call that
-- is answered by a response, or by none for an error. The headers that the caller gives are left out.
pub mod Headers
pub mod Download
mod Tests
use edgehog_device_runtime.Base.{
  ℕ, zero, suc, ◌+◌, ◌^◌, Bool, true, false, ◌==◌, ltb, leb, ◌&&◌, if◌then◌else◌, Option, none,
  some, List, [], ◌∷◌, Result, ok, err,
}
use edgehog_device_runtime.Base.State.{Stateful, fail}
use edgehog_device_runtime.Base.Text.{Text, split_once, strip_prefix, parse_unsigned, same}

-- one over the largest `u64`
abbrev pub bound : ℕ
bound = 2 ^ 64

-- The values of a header: `none` for one that is no text.
abbrev pub Values : Type 0
Values = List (Option Text)

pub record Response : Type 0 where
  pub status : ℕ
  pub content_length : Values
  pub content_range : Values
  pub body : ℕ

pub data Error : Type 0 where
  request status header mismatch range_start range_end : Error

pub data Range : Type 0 where
  content : ℕ → Option ℕ → Range
  not_satisfiable : Option ℕ → Range

pub record Downloaded : Type 0 where
  pub response : Response
  pub start : ℕ
  pub total_length : Option ℕ

unfoldable pub parse_u64 : Text → Option ℕ
parse_u64 text = parse_unsigned bound text

-- `bytes `
abbrev pub bytes : Text
bytes = b'b' ∷ b'y' ∷ b't' ∷ b'e' ∷ b's' ∷ b' ' ∷ []

abbrev pub star : Text
star = b'*' ∷ []

unfoldable pub check_total : Option ℕ → Option ℕ → Result Error (Option ℕ)
check_total none range = ok range
check_total (some total) none = ok (some total)
check_total (some total) (some range) = if total == range then ok (some total) else err mismatch

unfoldable pub expect_one : Values → Result Error Text
expect_one (some value ∷ []) = ok value
expect_one _ = err header

abbrev pub or_header : {A : Type 0} → Option A → Result Error A
or_header none = err header
or_header (some a) = ok a

abbrev pub known_total : Option ℕ → Option (Option ℕ)
known_total none = none
known_total (some n) = some (some n)

unfoldable pub parse_total : Text → Option (Option ℕ)
parse_total text = if same text star then some none else known_total (parse_u64 text)

-- start, end and total
abbrev pub Parts : Type 0
Parts = ℕ × ℕ × Option ℕ

unfoldable pub all_parts : Option ℕ → Option ℕ → Option (Option ℕ) → Option Parts
all_parts (some start) (some last) (some total) = some (start, last, total)
all_parts _ _ _ = none

unfoldable pub range_and_total : Text → Option (Text × Text) → Option Parts
range_and_total total none = none
range_and_total total (some (start, last)) =
    all_parts (parse_u64 start) (parse_u64 last) (parse_total total)

unfoldable pub parse_parts : Option (Text × Text) → Option Parts
parse_parts none = none
parse_parts (some (range, total)) = range_and_total total (split_once b'-' range)

unfoldable pub parse_stripped : Option Text → Option Parts
parse_stripped none = none
parse_stripped (some rest) = parse_parts (split_once b'/' rest)

unfoldable pub parse_content_range : Text → Option Parts
parse_content_range value = parse_stripped (strip_prefix bytes value)

-- `bytes */`
abbrev pub bytes_of : Text
bytes_of = b'b' ∷ b'y' ∷ b't' ∷ b'e' ∷ b's' ∷ b' ' ∷ b'*' ∷ b'/' ∷ []

unfoldable pub parse_length : Option Text → Option ℕ
parse_length none = none
parse_length (some rest) = parse_u64 rest

unfoldable pub parse_unsatisfiable_content_range : Text → Option ℕ
parse_unsatisfiable_content_range value = parse_length (strip_prefix bytes_of value)

abbrev pub some_length : Option ℕ → Result Error (Option ℕ)
some_length none = err header
some_length (some n) = ok (some n)

-- Without the header, or with more than one, there is no length. `HeaderValue::to_str` may fail.
unfoldable pub content_length_of : Values → Result Error (Option ℕ)
content_length_of (some value ∷ []) = some_length (parse_u64 value)
content_length_of (none ∷ []) = err header
content_length_of _ = ok none

-- the end of the range against the total
unfoldable pub check_last : ℕ → ℕ → Option ℕ → Result Error Range
check_last start last none = ok (content start none)
check_last start last (some n) =
    if n == last + 1 then ok (content start (some n)) else err range_end

unfoldable pub check_end : Option Parts → Result Error Range
check_end none = err header
check_end (some (start, last, total)) =
    if ltb (last + 1) bound then check_last start last total else err range_end

unfoldable pub partial_of : Result Error Text → Result Error Range
partial_of (err e) = err e
partial_of (ok value) = check_end (parse_content_range value)

unfoldable pub full_of : Result Error (Option ℕ) → Result Error Range
full_of (err e) = err e
full_of (ok length) = ok (content 0 length)

unfoldable pub unsatisfied_of : Result Error Text → Range
unsatisfied_of (err e) = not_satisfiable none
unsatisfied_of (ok value) = not_satisfiable (parse_unsatisfiable_content_range value)

abbrev pub by_status : Bool → Bool → Bool → Response → Result Error Range
by_status true _ _ r = partial_of (expect_one r.content_range)
by_status false true _ r = full_of (content_length_of r.content_length)
by_status false false true r = ok (unsatisfied_of (expect_one r.content_range))
by_status false false false r = err status

unfoldable pub check_response : Response → Result Error Range
check_response r = by_status (r.status == 206) (r.status == 200) (r.status == 416) r

pub data Call : Type 0 where
  get : Call
  get_from : ℕ → Call

abbrev pub Env : Type 0
Env = List Call → Option Response

abbrev pub Run : Type 0
Run = Stateful (List Call) Error Downloaded

-- `error_for_status`: the errors of the client and of the server
abbrev pub is_error_status : ℕ → Bool
is_error_status n = leb 400 n && ltb n 600

unfoldable pub downloaded : Response → ℕ → Result Error (Option ℕ) → Result Error Downloaded
downloaded r start (err e) = err e
downloaded r start (ok total) = ok (record { response = r; start = start; total_length = total })

unfoldable pub full_length : Option ℕ → Response → Result Error (Option ℕ) → Result Error Downloaded
full_length total r (err e) = err e
full_length total r (ok length) = downloaded r 0 (check_total total length)

unfoldable pub full_response : Option ℕ → Option Response → Result Error Downloaded
full_response total none = err request
full_response total (some r) =
    if is_error_status r.status
    then err status
    else full_length total r (content_length_of r.content_length)

module _ (env : Env) where
  unfoldable pub full_request : Option ℕ → Run
  full_request total calls = let calls' = get ∷ calls in (full_response total (env calls'), calls')

  abbrev pub full_again : Result Error (Option ℕ) → Run
  full_again (err e) = fail e
  full_again (ok total) = full_request total

  unfoldable pub follow : ℕ → Option ℕ → Response → Result Error Range → Run
  follow start total r (err e) calls = (err e, calls)
  follow start total r (ok (content from length)) calls = (
    if ltb start from then err range_start else downloaded r from (check_total total length),
    calls,
  )
  follow start total r (ok (not_satisfiable length)) calls =
      full_again (check_total total length) calls

  unfoldable pub range_response : ℕ → Option ℕ → Option Response → Run
  range_response start total none calls = (err request, calls)
  range_response start total (some r) calls = follow start total r (check_response r) calls

  unfoldable pub download : ℕ → Option ℕ → Run
  download zero total calls = full_request total calls
  download (suc n) total calls =
      let calls' = get_from (suc n) ∷ calls in range_response (suc n) total (env calls') calls'
