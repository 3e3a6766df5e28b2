-- ===== src/Store.antt =====
-- crates/weft-ipc-types/src/store.rs: where a store keeps the revisions of a package, and which one
-- is active. The locks on a revision are in the child `Pin`.
pub mod Resolve
pub mod Pin
mod Examples
use weft_os.Base.{
  ◌==◌, Bool, ◌&&◌, ◌||◌, Option, none, some, Text, codes, ◌++◌, all, length, leb, is_digit, Result,
  ok, err, ◌>>=◌, if◌then◌else◌,
}
use weft_os.Base.Paths.{join, file_name, path_eq}
use weft_os.Base.Disk.{Disk, ErrorKind, not_found, FileType, regular, folder, link, special}

abbrev pub revisions_dir : Text
revisions_dir = codes ".revisions"

unfoldable pub revisions_of : Text → Text → Text
revisions_of store_root app_id = join (join store_root revisions_dir) app_id

unfoldable pub link_target : Text → Text → Text
link_target app_id rev = join (join revisions_dir app_id) rev

unfoldable pub is_revision_name : Text → Bool
is_revision_name name =
    (length name == 64) && all (λ b. is_digit b || (leb b'a' b && leb b b'f')) name

pub data Active : Type 0 where
  revision : (name : Text) → (dir : Text) → Active
  directory : Text → Active

-- `Active::dir`
unfoldable pub dir : Active → Text
dir (revision name d) = d
dir (directory d) = d

pub data StoreError : Type 0 where
  io : Text → ErrorKind → StoreError
  not_a_package : Text → StoreError

-- `Display` of `StoreError`; `shown` is that of `std::io::Error`
unfoldable pub store_error_text : (ErrorKind → Text) → StoreError → Text
store_error_text shown (io path e) = codes "cannot read " ++ (path ++ (codes ": " ++ shown e))
store_error_text shown (not_a_package path) =
    path ++ codes " is neither a package directory nor a link to one of its revisions"

-- the last component of a link's target, when the target is exactly the link to that revision
linked_revision : Text → Option Text → Text → Option Text
linked_revision app_id none target = none
linked_revision app_id (some n) target =
    if is_revision_name n && path_eq target (link_target app_id n) then some n else none

-- the end of `active`, for a link to the revision `name`
revision_at : Text → Text → Text → Result ErrorKind FileType → Result StoreError (Option Active)
revision_at entry name d (ok folder) = ok (some (revision name d))
revision_at entry name d (ok _) = err (not_a_package entry)
revision_at entry name d (err e) = err (io d e)

module _ (fs : Disk) where
  -- the rest of `active` once the link's target is read
  follow : Text → Text → Text → Option Text → Result StoreError (Option Active)
  unfolding revision_at
  follow store_root app_id entry none = err (not_a_package entry)
  follow store_root app_id entry (some name) =
      let d = join (revisions_of store_root app_id) name in
      revision_at entry name d (fs.symlink_metadata d)

  through_link : Text → Text → Text → Result ErrorKind Text → Result StoreError (Option Active)
  unfolding follow linked_revision
  through_link store_root app_id entry (err e) = err (io entry e)
  through_link store_root app_id entry (ok target) =
      follow store_root app_id entry (linked_revision app_id (file_name target) target)

  -- `active`, by what is at `<store>/<app_id>`
  active_at : Text → Text → Text → Result ErrorKind FileType → Result StoreError (Option Active)
  unfolding through_link
  active_at store_root app_id entry (err not_found) = ok none
  active_at store_root app_id entry (err e) = err (io entry e)
  active_at store_root app_id entry (ok folder) = ok (some (directory entry))
  active_at store_root app_id entry (ok link) =
      through_link store_root app_id entry (fs.read_link entry)
  active_at store_root app_id entry (ok _) = err (not_a_package entry)

  unfoldable pub active : Text → Text → Result StoreError (Option Active)
  unfolding active_at
  active store_root app_id =
      let entry = join store_root app_id in
      active_at store_root app_id entry (fs.symlink_metadata entry)
