-- ===== src/Transfer/Storage/Tests.antt =====
-- The theorem on the cleanup at a concrete directory, and runs of the cleanup of
-- src/file_transfer/file_system/store/mod.rs.
use edgehog_device_runtime.Base.{
  ℕ, ◌≡◌, refl, ◌&&◌, ◌||◌, not, any, Option, none, some, List, [], ◌∷◌, Result, ok, err,
}
use edgehog_device_runtime.Base.Text.{Text, same}
use edgehog_device_runtime.Jobs.{file_transfer, pending, Table, exists}
use edgehog_device_runtime.Transfer.Worker.{download, tag_of}
use edgehog_device_runtime.Transfer.Storage.{
  DirEntry, FileType, regular, directory, symlink, partial_ext, rsplit_once, stem_and_extension,
  Env, partial_name, should_cleanup_symlinks, partial_id, get_partial_id, job_exists, cleanup_id,
  should_cleanup_partial, should_cleanup, Names, unlink, remove_file, cleanup_entries, cleanup,
}
use edgehog_device_runtime.Transfer.Storage.Cleaned.{holds, reached, cleanup-partial_name}

-- a UUID as one character
abbrev parse_str : Text → Option ℕ
parse_str (c ∷ []) = some c
parse_str _ = none

abbrev env : Env
env = record {
  parse_str = parse_str;
  to_string = λ id. id ∷ [];
  query_error = λ _. none;
  remove_error = λ _. none;
}

abbrev entry : Text → FileType → Result ℕ DirEntry
entry name kind = ok (record { name = name; file_type = ok kind })

abbrev first_part : Text
first_part = 97 ∷ partial_ext

abbrev second_part : Text
second_part = 98 ∷ partial_ext

-- a link, two partial files of which the first has a job, a stored directory and a file of another name
abbrev entries : List (Result ℕ DirEntry)
entries =
    entry (108 ∷ []) symlink
    ∷ entry first_part regular
    ∷ entry second_part regular
    ∷ entry (99 ∷ []) directory
    ∷ entry partial_ext regular
    ∷ []

abbrev names : Names
names = (108 ∷ []) ∷ first_part ∷ second_part ∷ (99 ∷ []) ∷ partial_ext ∷ []

abbrev table : Table
table =
    record {
      job = record {
        id = 97;
        job_type = file_transfer;
        tag = tag_of download;
        status = pending;
        version = 0;
        schedule_at = none;
        bytes = [];
      };
      created_at = 5;
    }
    ∷ []

cleans : cleanup env table (ok entries) names ≡ (ok tt, first_part ∷ (99 ∷ []) ∷ partial_ext ∷ [])
unfolding cleanup cleanup_entries should_cleanup should_cleanup_symlinks should_cleanup_partial
    cleanup_id job_exists exists get_partial_id partial_id stem_and_extension rsplit_once
    remove_file unlink same
cleans = refl

-- An error on the way ends the loop, and the rest stays.
stops_at_an_error :
    cleanup env table (ok (entry (108 ∷ []) symlink ∷ err 5 ∷ entry second_part regular ∷ [])) names
    ≡ (ok tt, first_part ∷ second_part ∷ (99 ∷ []) ∷ partial_ext ∷ [])
unfolding cleanup cleanup_entries should_cleanup should_cleanup_symlinks remove_file unlink same
stops_at_an_error = refl

cleanup-partial_name_example :
    holds (partial_name env 98) (cleanup env table (ok entries) names).1
    ≡ holds (partial_name env 98) names
      && (exists 98 file_transfer (tag_of download) table
          || not (any (λ entry. same (partial_name env 98) entry.name) (reached entries)))
unfolding reached partial_name same
cleanup-partial_name_example =
    cleanup-partial_name env table 98 98 [] entries names refl refl refl refl
      (λ e. absurd (cc), (λ _. refl, (λ _. refl, (λ _. refl, (λ _. refl, tt)))))
