-- ===== src/Pack.antt =====
-- crates/weft-pack/src/main.rs: how the packaging tool changes a package store. This file has the
-- calls it makes, what they report, and its smallest operations; the children have one operation
-- each. What the tool prints is left out.
pub mod Switch
pub mod Collect
pub mod Place
pub mod Admit
pub mod Settle
pub mod Rollback
pub mod Memory
mod Examples
pub mod Seen
use weft_os.Base.{
  ◌==◌, ℕ, zero, suc, Bool, true, false, not, ◌&&◌, ◌||◌, List, [], ◌∷◌, ◌++◌, Option, none, some,
  Text, codes, is_ok, text_eq, Result, ok, err, if◌then◌else◌, leb,
}
use weft_os.Base.Paths.{join}
use weft_os.Manifest.{ManifestError}
use weft_os.Package.{IoKind}
use weft_os.Base.Disk.{Disk, ErrorKind, not_found, FileType, folder}
use weft_os.Base.Steps.{after}
use weft_os.Store.{revisions_of, is_revision_name, StoreError}
use weft_os.Store.Pin.{Locks}
use weft_os.Trust.{TrustError, signature_file}
use weft_os.Trust.Inventory.{Failure}

-- `S` is the state of the file system, `File` an open file. `report` is what reading calls report.
-- `random_name` is the hexadecimal text of eight random bytes, `sync` opens an entry and syncs it,
-- and `age` is how many seconds ago the entry at a path was modified, where that can be found out.
pub record Calls {ℓ} (S File : Type ℓ) : Type ℓ where
  pub report : S → Disk
  pub random_name : S → S × Text
  -- the target, and the path of the new link
  pub symlink : S → Text → Text → S × Result ErrorKind (Unit {0})
  pub rename : S → Text → Text → S × Result ErrorKind (Unit {0})
  -- `renameat2` with `RENAME_EXCHANGE`, and with `RENAME_NOREPLACE`
  pub exchange : S → Text → Text → S × Result ErrorKind (Unit {0})
  pub rename_no_replace : S → Text → Text → S × Result ErrorKind (Unit {0})
  pub remove_file : S → Text → S × Result ErrorKind (Unit {0})
  pub remove_dir : S → Text → S × Result ErrorKind (Unit {0})
  pub remove_dir_all : S → Text → S × Result ErrorKind (Unit {0})
  -- with the mode 0700; and the mode 0755 given to a directory that is opened without following a link
  pub create_dir : S → Text → S × Result ErrorKind (Unit {0})
  pub open_to_all : S → Text → S × Result ErrorKind (Unit {0})
  -- `Path::is_dir`, and `Path::ancestors`: the path itself first
  pub is_dir : S → Text → Bool
  pub ancestors : Text → List Text
  pub sync : S → Text → S × Result ErrorKind (Unit {0})
  pub age : S → Text → Option ℕ
  pub locks : Locks S File

-- An error with the context that says what failed, a refusal, or an error of the other crate.
pub data PackError : Type 0 where
  failed : Text → ErrorKind → PackError
  refused : Text → PackError
  store_failed : StoreError → PackError
  trust_failed : TrustError → PackError
  inventory_failed : Failure → PackError
  manifest_failed : ManifestError Text → PackError
  inspect_failed : Text → IoKind → PackError
  -- a directory deeper than the fuel, and a panic
  too_deep panicked : PackError

-- `with_context` on an error of the system
unfoldable pub context {ℓ} : {A : Type ℓ} → Text → Result ErrorKind A → Result PackError A
context what (err e) = err (failed what e)
context what (ok a) = ok a

abbrev pub previous_link : Text
previous_link = codes "previous"

abbrev pub abandoned_after : ℕ
abandoned_after = 3600

-- the signature file's bytes, `some none` where there is none, `none` where it cannot be read
unfoldable pub signature_bytes : Result ErrorKind Text → Option (Option Text)
signature_bytes (ok bytes) = some (some bytes)
signature_bytes (err not_found) = some none
signature_bytes (err _) = none

unfoldable pub same_signature : Option (Option Text) → Option (Option Text) → Bool
same_signature (some (some a)) (some (some b)) = text_eq a b
same_signature (some none) (some none) = true
same_signature _ _ = false

module _ {ℓ} {S File : Type ℓ} (k : Calls S File) where
  -- `std::fs::symlink_metadata(path).is_ok()`
  abbrev pub is_there : S → Text → Bool
  is_there s path = is_ok ((k.report s).symlink_metadata path)

  -- a call whose outcome `let _ =` drops
  abbrev pub ignored {κ} : {E : Type κ} → S × Result E (Unit {0}) → S
  ignored m = m.0

  unfoldable pub sync_dir : S → Text → S × Result PackError (Unit {0})
  unfolding context
  sync_dir s dir = let (s', answer) = k.sync s dir in (s', context (codes "sync " ++ dir) answer)

  -- `digest` is `hex::encode` of `content_digest`.
  unfoldable pub same_revision : (S → Text → Result Failure Text) → S → Text → Text → Text → Bool
  unfolding signature_bytes same_signature
  same_revision digest s dir staging rev =
      let signature =
        λ (root : Text). signature_bytes ((k.report s).read (join root signature_file)) in
      elim (digest s dir) [ err e ↦ false | ok d ↦ text_eq d rev ]
      && same_signature (signature dir) (signature staging)

  unfoldable pub temporary_link : S → Text → Text → Text → S × Result PackError Text
  unfolding context
  temporary_link s store_root app_id target =
      let (s1, name) = k.random_name s in
      let link = join store_root (codes ".link-" ++ (app_id ++ (b'-' ∷ name))) in
      let (s2, answer) = k.symlink s1 target link in
      (s2, elim (context (codes "create " ++ link) answer) [ err e ↦ err e | ok done ↦ ok link ])

  -- the end of `replace_link`, after the rename
  renamed_link :
      S → Result ErrorKind (Unit {0}) → Text → Text → Text → S × Result PackError (Unit {0})
  renamed_link s (err e) dir name temporary =
      ((k.remove_file s temporary).0, err (failed (codes "update " ++ join dir name) e))
  renamed_link s (ok done) dir name temporary = sync_dir s dir

  rename_link : Text → Text → Text → S → S × Result PackError (Unit {0})
  unfolding renamed_link
  rename_link dir name temporary s =
      let (s', answer) = k.rename s temporary (join dir name) in
      renamed_link s' answer dir name temporary

  unfoldable pub replace_link : S → Text → Text → Text → S × Result PackError (Unit {0})
  unfolding rename_link context
  replace_link s dir name target =
      let (s1, random) = k.random_name s in
      let temporary = join dir (b'.' ∷ (name ++ (b'-' ∷ random))) in
      let (s2, made) = k.symlink s1 target temporary in
      after (s2, context (codes "create " ++ temporary) made)
        λ s3 done. rename_link dir name temporary s3

  -- `is_ok_and(|m| m.is_dir())`
  abbrev pub is_folder : S → Text → Bool
  is_folder s path = elim ((k.report s).symlink_metadata path) [ ok folder ↦ true | _ ↦ false ]

  revision_named : S → Text → Result ErrorKind Text → Option Text
  revision_named s revisions (err e) = none
  revision_named s revisions (ok name) =
      if is_revision_name name && is_folder s (join revisions name) then some name else none

  unfoldable pub previous_revision : S → Text → Text → Option Text
  unfolding revision_named
  previous_revision s store_root app_id =
      let revisions = revisions_of store_root app_id in
      revision_named s revisions ((k.report s).read_link (join revisions previous_link))

  trashed : S → Result ErrorKind (Unit {0}) → Text → S
  trashed s (err e) trash = s
  trashed s (ok done) trash = ignored (k.remove_dir_all s trash)

  unfoldable pub remove_claimed : S → Text → Text → S
  unfolding trashed
  remove_claimed s store_root dir =
      let (s1, name) = k.random_name s in
      let trash = join store_root (codes ".trash-" ++ name) in
      let (s2, answer) = k.rename s1 dir trash in trashed s2 answer trash

  unfoldable pub abandoned : S → Text → Bool
  abandoned s path = elim (k.age s path) [ none ↦ false | some age ↦ leb abandoned_after age ]
