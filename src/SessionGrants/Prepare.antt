-- ===== src/SessionGrants/Prepare.antt =====
-- crates/weft-appd/src/grants.rs: the preparation of the application's data directory, and the
-- whole of `derive`. `io_text` is how the platform words an I/O error.
pub mod Refused
use weft_os.Base.{
  ℕ, Bool, true, false, List, ◌++◌, Option, none, some, Text, codes, text_eq, find, Result, ok, err,
}
use weft_os.Package.{
  IoKind, FileSystem, Migration, MigrationError, conflict, cross_device, not_a_plain_directory, io,
  legacy_app_data_dir, migrate_app_data, make_private,
}
use weft_os.SessionGrants.{GrantedDir, SessionGrants, Refusal, refuse, HostDirs, plan}

module _ {ℓ} {F : Type ℓ} (fs : FileSystem F) (io_text : IoKind → Text) where
  -- `MigrationError::fmt`
  migration_text : MigrationError → Text
  migration_text (conflict legacy target) =
      codes "app data exists both in "
      ++ (legacy
          ++ (codes " and in " ++ (target ++ codes "; keep one of them and remove the other")))
  migration_text (cross_device legacy target) =
      codes "app data in "
      ++ (legacy
          ++ (codes " cannot be moved to "
              ++ (target ++ codes " on another filesystem; move it there by hand")))
  migration_text (not_a_plain_directory path) =
      path ++ codes " is not a plain directory; move it aside to continue"
  migration_text (io e) = io_text e

  migration_refusal : Text → Text → MigrationError → Refusal
  unfolding migration_text
  migration_refusal legacy dir (conflict l t) = refuse 409 (migration_text (conflict l t))
  migration_refusal legacy dir (io e) = refuse 500 (
      codes "cannot move app data from "
      ++ (legacy ++ (codes " to " ++ (dir ++ (codes ": " ++ io_text e)))))
  migration_refusal legacy dir e = refuse 500 (migration_text e)

  made_private : Text → F × Result IoKind (Unit {0}) → F × Result Refusal (Unit {0})
  made_private dir (s, ok u) = (s, ok tt)
  made_private dir (s, err e) =
      (s, err (refuse 500 (codes "cannot prepare " ++ (dir ++ (codes ": " ++ io_text e)))))

  created : Text → F × Result IoKind (Unit {0}) → F × Result IoKind (Unit {0})
  created dir (s, ok u) = make_private fs s dir
  created dir (s, err e) = (s, err e)

  after_migration :
      Text → Text → F × Result MigrationError Migration → F × Result Refusal (Unit {0})
  unfolding migration_refusal made_private created
  after_migration legacy dir (s, err e) = (s, err (migration_refusal legacy dir e))
  after_migration legacy dir (s, ok m) =
      made_private dir (created dir (fs.create_private_dir_all s dir))

  unfoldable pub prepare_app_data : F → Text → Text → HostDirs → F × Result Refusal (Unit {0})
  unfolding after_migration
  prepare_app_data s app_id dir h =
      let legacy = legacy_app_data_dir h.home app_id in
      after_migration legacy dir (migrate_app_data fs s legacy dir)

  with_grants : SessionGrants → F × Result Refusal (Unit {0}) → F × Result Refusal SessionGrants
  with_grants grants (s, ok u) = (s, ok grants)
  with_grants grants (s, err e) = (s, err e)

  -- the `if let` on the `/data` directory and the host
  prepared :
      F
      → Text
      → SessionGrants
      → Option GrantedDir
      → Option HostDirs
      → F × Result Refusal SessionGrants
  unfolding with_grants
  prepared s app_id grants (some dir) (some h) =
      with_grants grants (prepare_app_data s app_id dir.host_path h)
  prepared s app_id grants _ _ = (s, ok grants)

  planned :
      F → Text → Result Refusal (SessionGrants × Option HostDirs) → F × Result Refusal SessionGrants
  unfolding prepared
  planned s app_id (err e) = (s, err e)
  planned s app_id (ok (grants, h)) =
      prepared s app_id grants (find (λ d. text_eq d.guest (codes "/data")) grants.dirs) h

  unfoldable pub derive :
      (Text → Bool)
      → F
      → Text
      → List Text
      → Result Refusal HostDirs
      → F × Result Refusal SessionGrants
  unfolding planned
  derive is_utf8 s app_id declared host_dirs =
      planned s app_id (plan is_utf8 app_id declared host_dirs)
