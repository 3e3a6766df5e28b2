-- ===== src/Package.antt =====
-- crates/weft-ipc-types/src/package.rs: application IDs, where an application's data lives, and
-- the move of data that an earlier version kept elsewhere. A path is its bytes; the file system's
-- state is passed along and changed only by the operations of `FileSystem`.
pub mod Identity
pub mod Migrate
pub mod Memory
pub mod Home
pub mod Image
mod Examples
use weft_os.Base.Paths.{join}
use weft_os.Base.{
  ℕ, Bool, true, false, ◌&&◌, ◌||◌, not, List, [], ◌∷◌, ◌++◌, Option, none, some, Text, codes, all,
  length, leb, split, starts_with, ends_with, is_empty, is_digit, is_lowercase, Result, ok, err,
  is_ok, if◌then◌else◌,
}

-- the closure over `parts`
is_segment : Text → Bool
is_segment [] = false
is_segment (b ∷ p) = is_lowercase b && all (λ b'. is_lowercase b' || is_digit b') (b ∷ p)

unfoldable pub is_valid_app_id : Text → Bool
unfolding is_segment
is_valid_app_id id = leb 3 (length (split b'.' id)) && all is_segment (split b'.' id)

unfoldable pub app_data_dir : Text → Text → Text
app_data_dir data_home app_id = join (join data_home (codes "weft/app-data")) app_id

unfoldable pub legacy_app_data_dir : Text → Text → Text
legacy_app_data_dir home app_id =
    join (join (join home (codes ".local/share/weft/apps")) app_id) (codes "data")

pub data IoKind : Type 0 where
  not_found not_a_directory already_exists crosses_devices other_kind : IoKind

-- What `symlink_metadata` reports of an entry: whether it is a directory.
pub record Entry : Type 0 where
  pub is_dir : Bool

-- `std::fs` and `renameat2(RENAME_NOREPLACE)`. `parent` is `Path::parent`.
pub record FileSystem {ℓ} (F : Type ℓ) : Type ℓ where
  pub symlink_metadata : F → Text → Result IoKind Entry
  pub create_dir_all : F → Text → F × Result IoKind (Unit {0})
  -- `DirBuilder` with `recursive` and the mode 0700
  pub create_private_dir_all : F → Text → F × Result IoKind (Unit {0})
  pub rename_no_replace : F → Text → Text → F × Result IoKind (Unit {0})
  pub remove_dir : F → Text → F × Result IoKind (Unit {0})
  pub set_private : F → Text → F × Result IoKind (Unit {0})
  pub parent : Text → Option Text

pub data Migration : Type 0 where
  not_needed moved : Migration

pub data MigrationError : Type 0 where
  conflict cross_device : Text → Text → MigrationError
  not_a_plain_directory : Text → MigrationError
  io : IoKind → MigrationError

module _ {ℓ} {F : Type ℓ} (fs : FileSystem F) where
  -- the loop over `places`
  existing_place : F → List Text → Result IoKind (Option Text)
  existing_place s [] = ok none
  existing_place s (place ∷ places) =
      let rest = existing_place s places in
      elim (fs.symlink_metadata s place) [
        | ok m ↦ ok (some place)
        | err IoKind.not_found ↦ rest
        | err IoKind.not_a_directory ↦ rest
        | err e ↦ err e
      ]

  unfoldable pub existing_app_data : F → Text → Text → Text → Result IoKind (Option Text)
  unfolding existing_place
  existing_app_data s data_home home app_id =
      existing_place s (app_data_dir data_home app_id ∷ legacy_app_data_dir home app_id ∷ [])

  -- after the rename: the earlier package directory goes, if that leaves it empty
  remove_package_dir : F → Option Text → F
  remove_package_dir s none = s
  remove_package_dir s (some package_dir) = (fs.remove_dir s package_dir).0

  renamed : Text → Text → F × Result IoKind (Unit {0}) → F × Result MigrationError Migration
  renamed legacy target (s, ok u) = (remove_package_dir s (fs.parent legacy), ok moved)
  renamed legacy target (s, err IoKind.already_exists) = (s, err (conflict legacy target))
  renamed legacy target (s, err IoKind.crosses_devices) = (s, err (cross_device legacy target))
  renamed legacy target (s, err e) = (s, err (io e))

  with_parent : F → Option Text → F × Result IoKind (Unit {0})
  with_parent s none = (s, ok tt)
  with_parent s (some dir) = fs.create_dir_all s dir

  move : Text → Text → F × Result IoKind (Unit {0}) → F × Result MigrationError Migration
  move legacy target (s, err e) = (s, err (io e))
  move legacy target (s, ok u) = renamed legacy target (fs.rename_no_replace s legacy target)

  migrate_entry : F → Text → Text → Result IoKind Entry → F × Result MigrationError Migration
  migrate_entry s legacy target (err IoKind.not_found) = (s, ok not_needed)
  migrate_entry s legacy target (err e) = (s, err (io e))
  migrate_entry s legacy target (ok metadata) =
      if not metadata.is_dir
      then (s, err (not_a_plain_directory legacy))
      else if is_ok (fs.symlink_metadata s target)
      then (s, err (conflict legacy target))
      else move legacy target (with_parent s (fs.parent target))

  unfoldable pub migrate_app_data : F → Text → Text → F × Result MigrationError Migration
  unfolding migrate_entry move renamed with_parent remove_package_dir
  migrate_app_data s legacy target = migrate_entry s legacy target (fs.symlink_metadata s legacy)

  private_entry : F → Text → Result IoKind Entry → F × Result IoKind (Unit {0})
  private_entry s dir (err e) = (s, err e)
  private_entry s dir (ok metadata) =
      if not metadata.is_dir then (s, err other_kind) else fs.set_private s dir

  unfoldable pub make_private : F → Text → F × Result IoKind (Unit {0})
  unfolding private_entry
  make_private s dir = private_entry s dir (fs.symlink_metadata s dir)
