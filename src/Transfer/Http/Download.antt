-- ===== src/Transfer/Http/Download.antt =====
-- What a download of src/file_transfer/http/mod.rs returns.
use edgehog_device_runtime.Base.{ℕ, ◌≤◌, ◌≡◌, Option, none, some, List, [], ◌∷◌, Result, ok, err}
use edgehog_device_runtime.Transfer.Http.{
  Response, Error, content, Downloaded, check_response, Call, get, get_from, Env, content_length_of,
}

-- A total that is known is the one that is returned.
abbrev pub Agrees : Option ℕ → Option ℕ → Type 0
Agrees none found = Unit
Agrees (some total) found = found ≡ some total

abbrev AgreesOk : Option ℕ → Result Error (Option ℕ) → Type 0
AgreesOk total (err e) = Unit
AgreesOk total (ok found) = Agrees total found

-- Where a response says that its body starts, and the total that it announces: by its `Content-Range`
-- after a request for a part, and by its `Content-Length` after one for the whole body.
abbrev pub Announces : Call → Response → ℕ → Option ℕ → Type 0
Announces get r start length = (start ≡ 0) × (content_length_of r.content_length ≡ ok length)
Announces (get_from n) r start length = check_response r ≡ ok (content start length)

-- The total that is returned is the one that the latest response announces.
abbrev pub IsAnnounced : List Call → Downloaded → Type 0
IsAnnounced [] d = ⊥
IsAnnounced (c ∷ calls) d =
    (length : Option ℕ) × Announces c d.response d.start length × Agrees length d.total_length

module _ (env : Env) where
  -- The download is the latest response, with the start and the total that this announces. It starts
  -- where it was asked for or before, with the total that is known.
  abbrev pub IsDownload : ℕ → Option ℕ → Result Error Downloaded × List Call → Type 0
  IsDownload start total (err e, calls) = Unit
  IsDownload start total (ok d, calls) =
      (env calls ≡ some d.response)
      × (d.start ≤ start)
      × Agrees total d.total_length
      × IsAnnounced calls d
