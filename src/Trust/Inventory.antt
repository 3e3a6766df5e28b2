-- ===== src/Trust/Inventory.antt =====
-- The files of a package and their hashes, and the text that a package signature covers.
pub mod Lines
pub mod Exact
use weft_os.Base.{
  ◌==◌, ◌||◌, ◌&&◌, ℕ, zero, suc, Bool, true, false, not, List, [], ◌∷◌, Option, none, some, Text,
  codes, ◌++◌, text_eq, text_less, any, leb, ltb, Result, ok, err, ◌>>=◌, if◌then◌else◌,
}
use weft_os.Base.Paths.{
  Component, root_dir, cur_dir, parent_dir, normal, components, strip_components, join,
}
use weft_os.Base.Disk.{Disk, ErrorKind, FileType, regular, folder, link, special}
use weft_os.Trust.{
  Crypto, TrustError, trust_link, trust_not_a_file, non_utf8, control_character, trust_io, io_at,
  signature_file,
}

abbrev pub Entries : Type 0
Entries = List (Text × Text)

-- `char::is_control` on UTF-8
unfoldable pub has_control : Text → Bool
has_control [] = false
has_control (b ∷ []) = ltb b 32 || b == 127
has_control (b ∷ d ∷ s) =
    let rest = has_control (d ∷ s) in
    (ltb b 32 || b == 127) || ((b == 194) && (leb 128 d && leb d 159)) || rest

-- `<` on the pairs
entry_less : Text × Text → Text × Text → Bool
entry_less a b = text_less a.0 b.0 || (text_eq a.0 b.0 && text_less a.1 b.1)

insert_entry : Text × Text → Entries → Entries
unfolding entry_less
insert_entry e [] = e ∷ []
insert_entry e (f ∷ es) =
    let rest = insert_entry e es in if entry_less f e then f ∷ rest else e ∷ f ∷ es

-- `sort`
unfoldable pub sorted_entries : Entries → Entries
unfolding insert_entry
sorted_entries [] = []
sorted_entries (e ∷ es) = insert_entry e (sorted_entries es)

-- What `strip_prefix` leaves of a path, as text. `none` is where `expect` panics.
os_str : Component → Text
os_str root_dir = codes "/"
os_str cur_dir = codes "."
os_str parent_dir = codes ".."
os_str (normal a) = a

rest_text : List Component → Text
unfolding os_str
rest_text [] = []
rest_text (c ∷ []) = os_str c
rest_text (c ∷ d ∷ cs) = os_str c ++ (b'/' ∷ rest_text (d ∷ cs))

unfoldable pub relative_to_root : Text → Text → Option Text
unfolding rest_text
relative_to_root root path = elim (strip_components (components root) (components path)) [
  | none ↦ none
  | some cs ↦ some (rest_text cs)
]

-- Besides an error, `collect` may panic, or go deeper than the fuel.
pub data Failure : Type 0 where
  failed : TrustError → Failure
  panicked too_deep : Failure

unfoldable pub failing {ℓ} : {A : Type ℓ} → Result TrustError A → Result Failure A
failing (err e) = err (failed e)
failing (ok a) = ok a

module _ {Key Signature : Type 0} (c : Crypto Key Signature) where
  -- the text that `Inventory::digest` hashes
  unfoldable pub inventory_text : Entries → Text
  inventory_text [] = []
  inventory_text ((path, hash) ∷ entries) =
      path ++ (b'\t' ∷ (c.hex_encode hash ++ (b'\n' ∷ inventory_text entries)))

  abbrev pub digest : Entries → Text
  digest entries = c.sha256 (inventory_text entries)

  -- `Inventory::holds`
  unfoldable pub holds_file : Entries → Text → Text → Bool
  holds_file entries path bytes =
      any (λ e. text_eq e.0 path && text_eq e.1 (c.sha256 bytes)) entries

module _ {Key Signature : Type 0} (c : Crypto Key Signature) (is_utf8 : Text → Bool)
    (fs : Disk) where
  -- a regular file
  file_entry : Text → Text → Entries → Result Failure Entries
  unfolding failing io_at
  file_entry path relative entries =
      if not (text_eq relative signature_file)
      then failing (io_at path (fs.read path))
        >>= (λ bytes. ok (entries ++ (relative, c.sha256 bytes) ∷ []))
      else ok entries

  -- the chain of tests on the kind of an entry; `deeper` collects a directory
  by_kind :
      (Text → Entries → Result Failure Entries)
      → Text
      → Text
      → Entries
      → FileType
      → Result Failure Entries
  unfolding file_entry
  by_kind deeper path relative entries link = err (failed (trust_link path))
  by_kind deeper path relative entries folder = deeper path entries
  by_kind deeper path relative entries special = err (failed (trust_not_a_file path))
  by_kind deeper path relative entries regular = file_entry path relative entries

  named :
      (Text → Entries → Result Failure Entries)
      → Text
      → Entries
      → Option Text
      → Result Failure Entries
  unfolding by_kind failing io_at
  named deeper path entries none = err panicked
  named deeper path entries (some relative) =
      if not (is_utf8 relative)
      then err (failed (non_utf8 path))
      else if has_control relative
      then err (failed (control_character path))
      else failing (io_at path (fs.symlink_metadata path)) >>= by_kind deeper path relative entries

  -- the `for` loop over a directory
  each :
      (Text → Entries → Result Failure Entries)
      → Text
      → Text
      → List (Result ErrorKind Text)
      → Entries
      → Result Failure Entries
  unfolding named
  each deeper root dir [] entries = ok entries
  each deeper root dir (err e ∷ names) entries = err (failed (trust_io dir e))
  each deeper root dir (ok name ∷ names) entries =
      let path = join dir name in
      named deeper path entries (relative_to_root root path) >>= each deeper root dir names

  collect : ℕ → Text → Text → Entries → Result Failure Entries
  unfolding each failing io_at
  collect zero root dir entries = err too_deep
  collect (suc fuel) root dir entries =
      failing (io_at dir (fs.read_dir dir))
      >>= (λ names. each (collect fuel root) root dir names entries)

  -- `Inventory::read`
  unfoldable pub read_inventory : ℕ → Text → Result Failure Entries
  unfolding collect
  read_inventory fuel package_root =
      collect fuel package_root package_root [] >>= (λ entries. ok (sorted_entries entries))

  unfoldable pub content_digest : ℕ → Text → Result Failure Text
  unfolding read_inventory
  content_digest fuel package_root =
      read_inventory fuel package_root >>= (λ entries. ok (digest c entries))
