-- ===== src/Transfer/Storage/Cleaned.antt =====
-- Which names the cleanup of src/file_transfer/file_system/store/mod.rs leaves in the directory.
use edgehog_device_runtime.Base.{
  ℕ, ◌≡◌, refl, sym, Bool, true, false, not, ◌&&◌, ◌||◌, any, if◌then◌else◌, Bool-cases, inl, inr,
  arith, Option, none, some, List, [], ◌∷◌, ◌++◌, Result, ok, err, All,
}
use edgehog_device_runtime.Base.Text.{Text, same, same_iff, lacks}
use edgehog_device_runtime.Jobs.{file_transfer, Table, exists}
use edgehog_device_runtime.Transfer.Worker.{download, tag_of}
use edgehog_device_runtime.Transfer.Storage.{
  DirEntry, dot, partial, rsplit_once, stem_and_extension, Env, partial_name, is_symlink,
  should_cleanup_symlinks, partial_id, get_partial_id, job_exists, cleanup_id,
  should_cleanup_partial, should_cleanup, Names, unlink, remove_file, cleanup_entries, cleanup,
}

-- the name is in the directory
abbrev pub holds : Text → Names → Bool
holds name = any (same name)

-- the entries that come before an error
unfoldable pub reached : List (Result ℕ DirEntry) → List DirEntry
reached [] = []
reached (err e ∷ entries) = []
reached (ok entry ∷ entries) = entry ∷ reached entries

rsplit_once-lacks : (sep : ℕ) (text : Text) → lacks sep text ≡ true → rsplit_once sep text ≡ none
unfolding rsplit_once lacks
rsplit_once-lacks sep [] h = refl
rsplit_once-lacks sep (c ∷ cs) h = ground (arith, rsplit_once-lacks sep cs)

rsplit_once-append :
    (sep : ℕ) (text last : Text)
    → lacks sep last ≡ true
    → rsplit_once sep (text ++ (sep ∷ last)) ≡ some (text, last)
unfolding rsplit_once
rsplit_once-append sep [] last h = rw (rsplit_once-lacks sep last h) (ground arith)
rsplit_once-append sep (c ∷ cs) last h = rw (rsplit_once-append sep cs last h) refl

holds-unlink :
    (name other : Text) (names : Names)
    → holds name (unlink other names) ≡ holds name names && not (same name other)
unfolding unlink
holds-unlink name other [] = refl
holds-unlink name other (n ∷ names) =
    grind
      (arith, holds-unlink name other names, same_iff n other, same_iff name n, same_iff name other)

abbrev pub is_removable : Option ℕ → Bool
is_removable none = true
is_removable (some e) = false

-- The cleanup takes the name with this entry.
unfoldable pub takes : Env → Table → Text → DirEntry → Bool
takes env table name entry =
    same name entry.name
    && (is_removable (env.remove_error entry.name) && should_cleanup env table entry)

holds-cleanup_one :
    (env : Env) (table : Table) (name : Text) (entry : DirEntry) (names : Names)
    → holds name
        (if should_cleanup env table entry then remove_file env entry.name names else names)
      ≡ holds name names && not (takes env table name entry)
unfolding remove_file takes
holds-cleanup_one env table name entry names = grind (arith, holds-unlink name entry.name names)

-- A name is left in the directory when it was there, and no entry that is reached takes it.
holds-cleanup_entries :
    (env : Env) (table : Table) (name : Text) (entries : List (Result ℕ DirEntry)) (names : Names)
    → holds name (cleanup_entries env table entries names)
      ≡ holds name names && not (any (takes env table name) (reached entries))
unfolding cleanup_entries reached
holds-cleanup_entries env table name [] names = ground arith
holds-cleanup_entries env table name (err e ∷ entries) names = ground arith
holds-cleanup_entries env table name (ok entry ∷ entries) names =
    let one = holds-cleanup_one env table name entry names in
    rw (holds-cleanup_entries env table name entries _, one) (ground arith)

get_partial_id-partial_name :
    (env : Env) (id c : ℕ) (cs : Text)
    → env.to_string id ≡ c ∷ cs
    → env.parse_str (c ∷ cs) ≡ some id
    → get_partial_id env (partial_name env id) ≡ some id
unfolding get_partial_id partial_name partial_id stem_and_extension lacks same
get_partial_id-partial_name env id c cs printed parsed =
    rw (printed, rsplit_once-append dot (c ∷ cs) partial refl) parsed

module _ (env : Env) (table : Table) (id c : ℕ) (cs : Text) (printed : env.to_string id ≡ c ∷ cs)
    (parsed : env.parse_str (c ∷ cs) ≡ some id) (readable : env.query_error id ≡ none) where
  abbrev has_job : Bool
  has_job = exists id file_transfer (tag_of download) table

  should_cleanup_partial-partial_name :
      should_cleanup_partial env table (partial_name env id) ≡ not has_job
  unfolding should_cleanup_partial cleanup_id job_exists
  should_cleanup_partial-partial_name =
      rw (get_partial_id-partial_name env id c cs printed parsed, readable) refl

  module _ (removable : env.remove_error (partial_name env id) ≡ none) where
    takes-partial_name :
        (entry : DirEntry)
        → (same (partial_name env id) entry.name ≡ true → is_symlink entry.file_type ≡ false)
        → takes env table (partial_name env id) entry
          ≡ not has_job && same (partial_name env id) entry.name
    unfolding takes should_cleanup should_cleanup_symlinks
    takes-partial_name entry h = elim (Bool-cases (same (partial_name env id) entry.name)) [
      | inl e ↦
          let named = (same_iff (partial_name env id) entry.name).0 e in
          rw (e, sym named, removable, h e, should_cleanup_partial-partial_name) (ground arith)
      | inr e ↦ rw e (ground arith)
    ]

    any-takes :
        (entries : List DirEntry)
        → All
            (λ entry.
              same (partial_name env id) entry.name ≡ true → is_symlink entry.file_type ≡ false)
            entries
        → any (takes env table (partial_name env id)) entries
          ≡ not has_job && any (λ entry. same (partial_name env id) entry.name) entries
    any-takes [] h = ground arith
    any-takes (entry ∷ entries) h =
        rw (takes-partial_name entry h.0, any-takes entries h.1) (ground arith)

-- When the UUID's text is not empty and is parsed back, the query for its job and the removal of its partial
-- file succeed, and no entry of that name that is reached is a symlink: the cleanup leaves the
-- partial file in the directory when it was there, and its download job is in the queue or no entry
-- of its name is reached; otherwise the file is not there.
pub cleanup-partial_name :
    (env : Env) (table : Table) (id c : ℕ) (cs : Text) (entries : List (Result ℕ DirEntry))
    (names : Names)
    → env.to_string id ≡ c ∷ cs
    → env.parse_str (c ∷ cs) ≡ some id
    → env.query_error id ≡ none
    → env.remove_error (partial_name env id) ≡ none
    → All
        (λ entry. same (partial_name env id) entry.name ≡ true → is_symlink entry.file_type ≡ false)
        (reached entries)
    → holds (partial_name env id) (cleanup env table (ok entries) names).1
      ≡ holds (partial_name env id) names
        && (exists id file_transfer (tag_of download) table
            || not (any (λ entry. same (partial_name env id) entry.name) (reached entries)))
unfolding cleanup
cleanup-partial_name env table id c cs entries names printed parsed readable removable h =
    rw
      (
        holds-cleanup_entries env table (partial_name env id) entries names,
        any-takes env table id c cs printed parsed readable removable (reached entries) h,
      )
      (ground arith)
