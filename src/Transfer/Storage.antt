-- ===== src/Transfer/Storage.antt =====
-- The cleanup of the directory of stored files at the start: `FileStorage::cleanup` of
-- src/file_transfer/file_system/store/mod.rs, with the names of partial files. The file system answers
-- from the environment, and so does the parsing and printing of a UUID. The names are in UTF-8.
pub mod Cleaned
mod Tests
use edgehog_device_runtime.Base.{
  ℕ, Bool, true, false, not, ◌&&◌, ◌||◌, ◌==◌, any, if◌then◌else◌, Option, none, some, List, [],
  ◌∷◌, ◌++◌, Result, ok, err,
}
use edgehog_device_runtime.Base.Text.{Text, same}
use edgehog_device_runtime.Jobs.{file_transfer, Table, exists}
use edgehog_device_runtime.Transfer.Worker.{download, tag_of}

pub data FileType : Type 0 where
  regular directory symlink : FileType

-- A name in the directory, with the answer of `file_type`.
pub record DirEntry : Type 0 where
  pub name : Text
  pub file_type : Result ℕ FileType

abbrev pub dot : ℕ
dot = 46

-- `WriteHandle::PARTIAL`, "part"
abbrev pub partial : Text
partial = 112 ∷ 97 ∷ 114 ∷ 116 ∷ []

-- `WriteHandle::PARTIAL_EXT`
abbrev pub partial_ext : Text
partial_ext = dot ∷ partial

abbrev pub onto_last : ℕ → ℕ → Text → Option (Text × Text) → Option (Text × Text)
onto_last sep c cs (some (first, last)) = some (c ∷ first, last)
onto_last sep c cs none = if c == sep then some ([], cs) else none

-- the parts before and after the last separator
unfoldable pub rsplit_once : ℕ → Text → Option (Text × Text)
rsplit_once sep [] = none
rsplit_once sep (c ∷ cs) = onto_last sep c cs (rsplit_once sep cs)

-- `file_stem` and `extension` of a file name: a dot in front starts no extension.
unfoldable pub stem_and_extension : Text → Option (Text × Text) → Text × Option Text
stem_and_extension name none = (name, none)
stem_and_extension name (some ([], extension)) = (name, none)
stem_and_extension name (some (c ∷ stem, extension)) = (c ∷ stem, some extension)

pub record Env : Type 0 where
  -- `Uuid::parse_str` and `Display`
  pub parse_str : Text → Option ℕ
  pub to_string : ℕ → Text
  -- the error of the query for a job
  pub query_error : ℕ → Option ℕ
  -- the error of `remove_file`
  pub remove_error : Text → Option ℕ

-- the name of `partial_path`
unfoldable pub partial_name : Env → ℕ → Text
partial_name env id = env.to_string id ++ partial_ext

abbrev pub is_symlink : Result ℕ FileType → Bool
is_symlink (ok symlink) = true
is_symlink _ = false

unfoldable pub should_cleanup_symlinks : DirEntry → Bool
should_cleanup_symlinks entry = is_symlink entry.file_type

unfoldable pub partial_id : Env → Text × Option Text → Option ℕ
partial_id env (stem, none) = none
partial_id env (stem, some extension) = if same extension partial then env.parse_str stem else none

unfoldable pub get_partial_id : Env → Text → Option ℕ
get_partial_id env name = partial_id env (stem_and_extension name (rsplit_once dot name))

abbrev pub answered : Option ℕ → Bool → Result ℕ Bool
answered none found = ok found
answered (some e) found = err e

-- `Queue::exists`
unfoldable pub job_exists : Env → Table → ℕ → Result ℕ Bool
job_exists env table id =
    answered (env.query_error id) (exists id file_transfer (tag_of download) table)

abbrev pub is_missing : Result ℕ Bool → Bool
is_missing (ok found) = not found
is_missing (err e) = false

unfoldable pub cleanup_id : Env → Table → Option ℕ → Bool
cleanup_id env table none = false
cleanup_id env table (some id) = is_missing (job_exists env table id)

unfoldable pub should_cleanup_partial : Env → Table → Text → Bool
should_cleanup_partial env table name = cleanup_id env table (get_partial_id env name)

unfoldable pub should_cleanup : Env → Table → DirEntry → Bool
should_cleanup env table entry =
    should_cleanup_symlinks entry || should_cleanup_partial env table entry.name

-- the names of the directory
abbrev pub Names : Type 0
Names = List Text

unfoldable pub unlink : Text → Names → Names
unlink name [] = []
unlink name (n ∷ names) = let rest = unlink name names in if same n name then rest else n ∷ rest

-- An error is logged.
unfoldable pub remove_file : Env → Text → Names → Names
remove_file env name names = elim (env.remove_error name) [
  | none ↦ unlink name names
  | some e ↦ names
]

-- The loop over the answers of `next_entry`: an error ends it.
unfoldable pub cleanup_entries : Env → Table → List (Result ℕ DirEntry) → Names → Names
cleanup_entries env table [] names = names
cleanup_entries env table (err e ∷ entries) names = names
cleanup_entries env table (ok entry ∷ entries) names =
    cleanup_entries env table entries
      (if should_cleanup env table entry then remove_file env entry.name names else names)

-- `cleanup`, from the answer of `read_dir`
unfoldable pub cleanup :
    Env → Table → Result ℕ (List (Result ℕ DirEntry)) → Names → Result ℕ (Unit {0}) × Names
cleanup env table (err e) names = (err e, names)
cleanup env table (ok entries) names = (ok tt, cleanup_entries env table entries names)
