-- ===== src/Trust/Owners.antt =====
-- Who an application ID belongs to: the record of its owner, read and written, and the lock on it.
pub mod Written
pub mod Kept
pub mod RoundTrip
use weft_os.Base.{
  ◌==◌, ℕ, Bool, true, false, not, List, [], ◌∷◌, Option, none, some, Text, codes, ◌++◌, text_eq,
  trim, Result, ok, err, ◌>>=◌, if◌then◌else◌,
}
use weft_os.Base.Paths.{join, file_name}
use weft_os.Base.Disk.{ErrorKind, not_found}
use weft_os.Package.{is_valid_app_id}
use weft_os.Trust.{Crypto, TrustError, trust_io, malformed, io_at, from_hex, to_hex, malformed_at}
use weft_os.Trust.Inventory.{Failure, failed, panicked, failing}

pub data Owner (Key : Type 0) : Type 0 where
  verified : Key → Owner Key
  development : Owner Key

abbrev pub owners_dir : Text → Text
owners_dir data_home = join data_home (codes "weft/owners")

unfoldable pub owner_record_path : Text → Text → Text
owner_record_path data_home app_id = join (owners_dir data_home) app_id

-- `str::split_once` at one ASCII character
unfoldable pub split_once : ℕ → Text → Option (Text × Text)
split_once c [] = none
split_once c (b ∷ s) =
    let rest = split_once c s in
    if b == c then some ([], s) else elim rest [ none ↦ none | some p ↦ some (b ∷ p.0, p.1) ]

abbrev pub temp_name : Text → Text → Text
temp_name name pid = b'.' ∷ (name ++ (b'.' ∷ (pid ++ codes ".tmp")))

abbrev pub record_name : Text → Text
record_name record_path = elim (file_name record_path) [ none ↦ codes "record" | some n ↦ n ]

-- `S` is the state of the file system, `File` an open file; `parent` is `Path::parent`. `sync_dir`
-- opens a directory and syncs it.
pub record OwnerFiles {ℓ} (S File : Type ℓ) : Type ℓ where
  pub parent : Text → Option Text
  pub read_to_string : S → Text → Result ErrorKind Text
  pub create_dir_all : S → Text → S × Result ErrorKind (Unit {0})
  pub remove_file : S → Text → S
  pub create_new : S → Text → S × Result ErrorKind File
  pub write_all : S → File → Text → S × Result ErrorKind (Unit {0})
  pub sync_all : S → File → S × Result ErrorKind (Unit {0})
  pub hard_link : S → Text → Text → S × Result ErrorKind (Unit {0})
  pub sync_dir : S → Text → S × Result ErrorKind (Unit {0})
  -- `OpenOptions` with `write`, `create` and no `truncate`
  pub open_lock : S → Text → S × Result ErrorKind File
  -- waits until no other process has the lock
  pub lock : S → File → S × Result ErrorKind (Unit {0})

module _ {Key Signature : Type 0} (c : Crypto Key Signature) where
  -- `Display`
  unfoldable pub owner_name : Owner Key → Text
  owner_name (verified key) = codes "publisher " ++ to_hex c key
  owner_name development = codes "development installation"

  unfoldable pub owner_text : Owner Key → Text
  owner_text (verified key) = codes "verified " ++ (to_hex c key ++ codes "\n")
  owner_text development = codes "development\n"

  no_owner : Text → Result TrustError (Option (Owner Key))
  no_owner record_path =
      err (malformed record_path (codes "expected 'verified <key>' or 'development'"))

  by_words : Text → Text → Option (Text × Text) → Result TrustError (Option (Owner Key))
  unfolding no_owner from_hex malformed_at
  by_words record_path text (some words) =
      if text_eq words.0 (codes "verified")
      then malformed_at c record_path (from_hex c words.1) >>= (λ key. ok (some (verified key)))
      else no_owner record_path
  by_words record_path text none =
      if text_eq text (codes "development") then ok (some development) else no_owner record_path

  unfoldable pub owner_read : Text → Result ErrorKind Text → Result TrustError (Option (Owner Key))
  unfolding by_words split_once
  owner_read record_path (err not_found) = ok none
  owner_read record_path (err e) = err (trust_io record_path e)
  owner_read record_path (ok text) = by_words record_path (trim text) (split_once b' ' (trim text))

module _ {ℓ} {S File : Type ℓ} {Key Signature : Type 0} (c : Crypto Key Signature)
    (fs : OwnerFiles S File) where
  unfoldable pub read_owner : S → Text → Result TrustError (Option (Owner Key))
  unfolding owner_read
  read_owner s record_path = owner_read c record_path (fs.read_to_string s record_path)

  -- the closure's calls on the open file, and then its result
  synced : S → Result ErrorKind (Unit {0}) → File → S × Result ErrorKind (Unit {0})
  synced s (err e) file = (s, err e)
  synced s (ok done) file = fs.sync_all s file

  fill : S → File → Text → S × Result ErrorKind (Unit {0})
  unfolding synced
  fill s file text = let (s', answer) = fs.write_all s file text in synced s' answer file

  fill_opened : S → Result ErrorKind File → Text → S × Result ErrorKind (Unit {0})
  unfolding fill
  fill_opened s (err e) text = (s, err e)
  fill_opened s (ok file) text = fill s file text

  -- `written`
  pub write_temp : S → Text → Text → S × Result TrustError (Unit {0})
  unfolding fill_opened io_at
  write_temp s temp text =
      let (s', opened) = fs.create_new s temp in
      let (s'', answer) = fill_opened s' opened text in (s'', io_at temp answer)

  -- `linked`
  link_temp : S → Result TrustError (Unit {0}) → Text → Text → S × Result TrustError (Unit {0})
  unfolding io_at
  link_temp s (err e) temp record_path = (s, err e)
  link_temp s (ok done) temp record_path =
      let (s', answer) = fs.hard_link s temp record_path in (s', io_at record_path answer)

  -- the end of `write_owner`
  finish : S → Result TrustError (Unit {0}) → Text → S × Result TrustError (Unit {0})
  unfolding io_at
  finish s (err e) dir = (s, err e)
  finish s (ok done) dir = let (s', answer) = fs.sync_dir s dir in (s', io_at dir answer)

  through_temp : S → Text → Text → Text → Text → S × Result TrustError (Unit {0})
  unfolding write_temp link_temp finish
  through_temp s dir temp record_path text =
      let (s1, written) = write_temp (fs.remove_file s temp) temp text in
      let (s2, linked) = link_temp s1 written temp record_path in
      finish (fs.remove_file s2 temp) linked dir

  in_made :
      S → Result ErrorKind (Unit {0}) → Text → Text → Text → Text → S × Result TrustError (Unit {0})
  unfolding through_temp
  in_made s (err e) dir pid record_path text = (s, err (trust_io dir e))
  in_made s (ok done) dir pid record_path text =
      through_temp s dir (join dir (temp_name (record_name record_path) pid)) record_path text

  in_dir : S → Text → Text → Text → Text → S × Result TrustError (Unit {0})
  unfolding in_made
  in_dir s dir pid record_path text =
      let (s', made) = fs.create_dir_all s dir in in_made s' made dir pid record_path text

  below : S → Option Text → Text → Text → Text → Option (S × Result TrustError (Unit {0}))
  unfolding in_dir
  below s none pid record_path text = none
  below s (some dir) pid record_path text = some (in_dir s dir pid record_path text)

  -- `pid` is the process id's digits. `none` is a record path without a parent, where the code panics.
  unfoldable pub write_owner :
      S → Text → Text → Owner Key → Option (S × Result TrustError (Unit {0}))
  unfolding below owner_text
  write_owner s pid record_path owner =
      below s (fs.parent record_path) pid record_path (owner_text c owner)

  lock_opened : S → Result ErrorKind File → Text → S × Result TrustError File
  lock_opened s (err e) path = (s, err (trust_io path e))
  lock_opened s (ok file) path =
      let (s', answer) = fs.lock s file in
      elim answer [ err e ↦ (s', err (trust_io path e)) | ok done ↦ (s', ok file) ]

  lock_in : S → Result ErrorKind (Unit {0}) → Text → Text → S × Result TrustError File
  unfolding lock_opened
  lock_in s (err e) dir app_id = (s, err (trust_io dir e))
  lock_in s (ok done) dir app_id =
      let path = join dir (b'.' ∷ (app_id ++ codes ".lock")) in
      let (s', opened) = fs.open_lock s path in lock_opened s' opened path

  unfoldable pub lock_owner : S → Text → Text → S × Result TrustError File
  unfolding lock_in
  lock_owner s data_home app_id =
      let dir = owners_dir data_home in
      let (s', made) = fs.create_dir_all s dir in
      if not (is_valid_app_id app_id)
      then (s, err (malformed dir (b'\'' ∷ (app_id ++ codes "' is not a valid app ID"))))
      else lock_in s' made dir app_id
