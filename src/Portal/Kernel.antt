-- ===== src/Portal/Kernel.antt =====
-- The kernel calls that the portal makes on descriptors, as an interface with the state passed
-- along, and what they are documented to do to the entries of directories.
use weft_os.Base.{ℕ, ◌≡◌, ◌≢◌, Bool, List, [], ◌++◌, Option, some, Text, Result, ok, err}

-- `exdev` is what `openat2` returns for a resolution that would leave the directory.
pub data Errno : Type 0 where
  exdev : Errno
  other : ℕ → Errno

-- The flags `RDONLY | NONBLOCK` and `RDONLY | DIRECTORY`; the rest of the call is the same.
pub data OpenFlags : Type 0 where
  for_reading as_directory : OpenFlags

-- `openat2` is called with `RESOLVE_BENEATH` and without magic links. A file's mode is that of
-- `statat`, for a regular file that is not a link. An entry of `read_dir` whose name is not UTF-8
-- is `none`.
pub record Kernel {ℓ} (S Fd : Type ℓ) : Type ℓ where
  pub openat2 : S → Fd → List Text → OpenFlags → Result Errno Fd
  pub is_regular : S → Fd → Result Errno Bool
  pub read_up_to : S → Fd → ℕ → Result Errno Text
  pub read_dir : S → Fd → Result Errno (List (Result Errno (Option Text)))
  pub mode_of : S → Fd → Text → Option ℕ
  pub create_new : S → Fd → Text → S × Result Errno Fd
  pub fchmod : S → Fd → ℕ → S
  pub write_all : S → Fd → Text → S × Result Errno (Unit {0})
  pub sync_all : S → Fd → S × Result Errno (Unit {0})
  pub renameat : S → Fd → Text → Text → S × Result Errno (Unit {0})
  pub unlinkat : S → Fd → Text → S
  pub fsync : S → Fd → S

-- The observable state: the file that a name in a directory stands for, and a file's bytes.
pub record Observation {ℓ} (S Fd : Type ℓ) : Type ℓ where
  pub entry : S → Fd → Text → Option Fd
  pub bytes : S → Fd → Text

module _ {ℓ} {S Fd : Type ℓ} (k : Kernel S Fd) (o : Observation S Fd) where
  -- `s'` has the entries and the bytes of `s`.
  abbrev pub Same : S → S → Type ℓ
  Same s s' =
      ((dir : Fd) (name : Text) → o.entry s' dir name ≡ o.entry s dir name)
      × ((file : Fd) → o.bytes s' file ≡ o.bytes s file)

  -- `s'` has the entries of `s`, and the bytes of every file but one.
  abbrev pub SameBut : Fd → S → S → Type ℓ
  SameBut f s s' =
      ((dir : Fd) (name : Text) → o.entry s' dir name ≡ o.entry s dir name)
      × ((file : Fd) → file ≢ f → o.bytes s' file ≡ o.bytes s file)

  -- `s'` has the bytes of `s`, and every entry of `dir` but that of `name`.
  abbrev pub SameEntriesBut : Fd → Text → S → S → Type ℓ
  SameEntriesBut dir name s s' =
      ((n : Text) → n ≢ name → o.entry s' dir n ≡ o.entry s dir n)
      × ((file : Fd) → o.bytes s' file ≡ o.bytes s file)

  pub record Lawful : Type ℓ where
    -- `O_CREAT | O_EXCL`: a new and empty file, which no name stood for, under a name that was free
    pub create_new-entry :
        (s : S) (dir : Fd) (name : Text) (f : Fd)
        → (k.create_new s dir name).1 ≡ ok f
        → (o.entry (k.create_new s dir name).0 dir name ≡ some f)
          × ((n : Text) → n ≢ name → o.entry (k.create_new s dir name).0 dir n ≡ o.entry s dir n)
          × ((n : Text) → o.entry s dir n ≢ some f)
    pub create_new-bytes :
        (s : S) (dir : Fd) (name : Text) (f : Fd)
        → (k.create_new s dir name).1 ≡ ok f
        → (o.bytes (k.create_new s dir name).0 f ≡ [])
          × ((g : Fd) → g ≢ f → o.bytes (k.create_new s dir name).0 g ≡ o.bytes s g)
    pub create_new-err :
        (s : S) (dir : Fd) (name : Text) (e : Errno)
        → (k.create_new s dir name).1 ≡ err e
        → Same s (k.create_new s dir name).0
    pub fchmod-Same : (s : S) (f : Fd) (mode : ℕ) → Same s (k.fchmod s f mode)
    pub write_all-SameBut : (s : S) (f : Fd) (b : Text) → SameBut f s (k.write_all s f b).0
    -- at the end of the file, where a descriptor that was just opened for a new one is
    pub write_all-ok :
        (s : S) (f : Fd) (b : Text)
        → (k.write_all s f b).1 ≡ ok tt
        → o.bytes (k.write_all s f b).0 f ≡ o.bytes s f ++ b
    pub sync_all-Same : (s : S) (f : Fd) → Same s (k.sync_all s f).0
    pub renameat-ok :
        (s : S) (dir : Fd) (from to : Text)
        → (k.renameat s dir from to).1 ≡ ok tt
        → (o.entry (k.renameat s dir from to).0 dir to ≡ o.entry s dir from)
          × ((n : Text)
              → n ≢ from
              → n ≢ to
              → o.entry (k.renameat s dir from to).0 dir n ≡ o.entry s dir n)
          × ((file : Fd) → o.bytes (k.renameat s dir from to).0 file ≡ o.bytes s file)
    pub renameat-err :
        (s : S) (dir : Fd) (from to : Text) (e : Errno)
        → (k.renameat s dir from to).1 ≡ err e
        → Same s (k.renameat s dir from to).0
    pub unlinkat-SameEntriesBut :
        (s : S) (dir : Fd) (name : Text) → SameEntriesBut dir name s (k.unlinkat s dir name)
    pub fsync-Same : (s : S) (dir : Fd) → Same s (k.fsync s dir)
