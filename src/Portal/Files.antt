-- ===== src/Portal/Files.antt =====
-- Reading, listing and replacing a file below a granted directory. `errno_text` is how the platform
-- words an error; `encode` is base64; `stamp n` is the part of a temporary name after its prefix:
-- the process, the time of the first write and the counter.
pub mod Atomic
use weft_os.Base.{
  ℕ, ◌+◌, ◌%◌, ◌^◌, Bool, true, false, ◌&&◌, ◌||◌, not, List, [], ◌∷◌, ◌++◌, Option, none, some,
  Text, codes, text_eq, ltb, ◌==◌, length, is_empty, strip_prefix, Result, ok, err, ◌>>=◌,
  if◌then◌else◌,
}
use weft_os.Portal.{
  max_file, max_entries, temporary_prefix, Response, done, ok_data, ok_entries, failed, Root,
}
use weft_os.Portal.Kernel.{Errno, exdev, OpenFlags, for_reading, as_directory, Kernel}

-- `names.sort()`
text_before : Text → Text → Bool
text_before [] t = true
text_before (a ∷ s) [] = false
text_before (a ∷ s) (b ∷ t) = let rest = text_before s t in ltb a b || (a == b && rest)

insert_name : Text → List Text → List Text
insert_name a [] = a ∷ []
insert_name a (b ∷ bs) =
    let rest = insert_name a bs in if text_before a b then a ∷ b ∷ bs else b ∷ rest

sort_names : List Text → List Text
unfolding insert_name text_before
sort_names [] = []
sort_names (a ∷ as_) = insert_name a (sort_names as_)

is_some : Option Text → Bool
is_some none = false
is_some (some t) = true

-- the names that a listing leaves out
unfoldable pub is_hidden : Text → Bool
unfolding is_some
is_hidden name =
    text_eq name (codes ".")
    || text_eq name (codes "..")
    || is_some (strip_prefix temporary_prefix name)

-- `file_name` and `parent` of the path inside the root
unfoldable pub split_last : List Text → Option (List Text × Text)
split_last [] = none
split_last (a ∷ []) = some ([], a)
split_last (a ∷ b ∷ names) = elim (split_last (b ∷ names)) [
  | none ↦ none
  | some (parent, name) ↦ some (a ∷ parent, name)
]

abbrev pub too_large : Response
too_large = failed (codes "file larger than 16777216 bytes")

module _ {ℓ} {S Fd : Type ℓ} (k : Kernel S Fd) (errno_text : Errno → Text) where
  open_error : Errno → Response
  open_error exdev = failed (codes "access denied: the path leads out of the granted directory")
  open_error e = failed (errno_text e)

  io_error : {A : Type ℓ} → (Errno → Response) → Result Errno A → Result Response A
  io_error wording (ok a) = ok a
  io_error wording (err e) = err (wording e)

  -- the empty path stands for the directory itself
  unfoldable pub open_beneath : S → Root Fd → List Text → OpenFlags → Result Response Fd
  unfolding open_error io_error
  open_beneath s root names flags =
      io_error open_error
        (k.openat2 s root.dir (if is_empty names then codes "." ∷ [] else names) flags)

  failure : Errno → Response
  failure e = failed (errno_text e)

  regular_data : (Text → Text) → S → Fd → Result Errno Bool → Result Response Response
  regular_data encode s fd (err e) = err (failure e)
  regular_data encode s fd (ok false) = err (failed (codes "not a regular file"))
  regular_data encode s fd (ok true) = elim (k.read_up_to s fd (max_file + 1)) [
    | err e ↦ err (failure e)
    | ok found ↦ if ltb max_file (length found) then err too_large else ok (ok_data (encode found))
  ]

  unfoldable pub read : (Text → Text) → S → Root Fd → List Text → Result Response Response
  unfolding regular_data failure
  read encode s root names =
      open_beneath s root names for_reading >>= λ fd. regular_data encode s fd (k.is_regular s fd)

  -- the loop over the entries, with the names so far
  listed : List Text → List (Result Errno (Option Text)) → Result Response (List Text)
  unfolding failure
  listed names [] = ok names
  listed names (err e ∷ entries) = err (failure e)
  listed names (ok none ∷ entries) = listed names entries
  listed names (ok (some name) ∷ entries) =
      let skipped = listed names entries in
      let taken = listed (names ++ name ∷ []) entries in
      if is_hidden name
      then skipped
      else if length names == max_entries
      then err (failed (codes "more than 10000 entries"))
      else taken

  listed_dir : Result Errno (List (Result Errno (Option Text))) → Result Response Response
  unfolding listed failure sort_names
  listed_dir (err e) = err (failure e)
  listed_dir (ok entries) = listed [] entries >>= λ names. ok (ok_entries (sort_names names))

  unfoldable pub list : S → Root Fd → List Text → Result Response Response
  unfolding listed_dir
  list s root names = open_beneath s root names as_directory >>= λ fd. listed_dir (k.read_dir s fd)

  abbrev Outcome : Type ℓ
  Outcome = S × Result Response Response

  -- a step that failed: the temporary file goes
  abandon : Fd → Text → S → Errno → Outcome
  unfolding failure
  abandon parent temporary s e = (k.unlinkat s parent temporary, err (failure e))

  after_rename : Fd → Text → S × Result Errno (Unit {0}) → Outcome
  unfolding abandon
  after_rename parent temporary (s, ok u) = (k.fsync s parent, ok done)
  after_rename parent temporary (s, err e) = abandon parent temporary s e

  after_sync : Fd → Text → Text → S × Result Errno (Unit {0}) → Outcome
  unfolding after_rename
  after_sync parent temporary name (s, ok u) =
      after_rename parent temporary (k.renameat s parent temporary name)
  after_sync parent temporary name (s, err e) = abandon parent temporary s e

  after_write : Fd → Text → Text → Fd → S × Result Errno (Unit {0}) → Outcome
  unfolding after_sync
  after_write parent temporary name file (s, ok u) =
      after_sync parent temporary name (k.sync_all s file)
  after_write parent temporary name file (s, err e) = abandon parent temporary s e

  after_create : Fd → Text → Text → ℕ → Text → S × Result Errno Fd → Outcome
  unfolding after_write failure
  after_create parent temporary name mode bytes (s, err e) = (s, err (failure e))
  after_create parent temporary name mode bytes (s, ok file) =
      after_write parent temporary name file (k.write_all (k.fchmod s file mode) file bytes)

  -- a replaced file keeps its permission bits; a new one has `0o600`
  mode_for : Option ℕ → ℕ
  mode_for none = 384
  mode_for (some mode) = mode % 512

  -- from the open parent directory on
  unfoldable pub replace : S → Fd → Text → Text → Text → Outcome
  unfolding after_create mode_for
  replace s parent temporary name bytes =
      after_create parent temporary name (mode_for (k.mode_of s parent name)) bytes
        (k.create_new s parent temporary)

  -- the state of the portal: the kernel's, and the counter of temporary names
  write_under :
      (ℕ → Text) → S × ℕ → Text → Text → Result Response Fd → (S × ℕ) × Result Response Response
  write_under stamp st bytes name (err e) = (st, err e)
  write_under stamp (s, n) bytes name (ok parent) =
      let outcome = replace s parent (temporary_prefix ++ stamp n) name bytes in
      ((outcome.0, (n + 1) % 2 ^ 64), outcome.1)

  write_in :
      (ℕ → Text)
      → S × ℕ
      → Root Fd
      → Text
      → Option (List Text × Text)
      → (S × ℕ) × Result Response Response
  unfolding write_under
  write_in stamp st root bytes none = (st, err (failed (codes "a write needs a file name")))
  write_in stamp st root bytes (some (above, name)) =
      write_under stamp st bytes name (open_beneath st.0 root above as_directory)

  unfoldable pub write :
      (ℕ → Text) → S × ℕ → Root Fd → List Text → Text → (S × ℕ) × Result Response Response
  unfolding write_in
  write stamp st root names bytes =
      if ltb max_file (length bytes)
      then (st, err too_large)
      else write_in stamp st root bytes (split_last names)
