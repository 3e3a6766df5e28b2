-- ===== src/SessionGrants/Prepare/Refused.antt =====
-- What a refused launch leaves of the file system.
use weft_os.Base.{
  ◌≡◌, ◌≢◌, refl, ◌⊎◌, Bool, inl, inr, List, Option, none, some, Text, find, text_eq, codes, arith,
  Result, ok, err,
}
use weft_os.Package.{
  IoKind, FileSystem, Migration, MigrationError, conflict, cross_device, not_a_plain_directory, io,
  legacy_app_data_dir, migrate_app_data,
}
use weft_os.Package.Migrate.{Keeps, Lawful, migrate_app_data-Keeps}
use weft_os.SessionGrants.{GrantedDir, SessionGrants, Refusal, HostDirs, plan}
use weft_os.SessionGrants.Prepare.{
  migration_refusal, made_private, after_migration, prepare_app_data, with_grants, prepared,
  planned, derive,
}

module _ {ℓ} {F : Type ℓ} (fs : FileSystem F) (io_text : IoKind → Text) where
  made_private-code :
      (dir : Text) (x : F × Result IoKind Unit) (r : Refusal)
      → (made_private fs io_text dir x).1 ≡ err r
      → r.code ≡ 500
  unfolding made_private
  made_private-code dir (s, ok u) r h = cc
  made_private-code dir (s, err e) r h = ground arith

  -- Preparing the data refuses with 500, or with 409 and then the migration's state stands.
  after_migration-code :
      (legacy dir : Text) (x : F × Result MigrationError Migration) (r : Refusal)
      → (after_migration fs io_text legacy dir x).1 ≡ err r
      → (r.code ≡ 500)
        ⊎ ((r.code ≡ 409)
            × ((after_migration fs io_text legacy dir x).0 ≡ x.0)
            × ((e : MigrationError) × (x.1 ≡ err e)))
  unfolding after_migration migration_refusal
  after_migration-code legacy dir (s, ok m) r h = inl (made_private-code dir _ r h)
  after_migration-code legacy dir (s, err (conflict l t)) r h = inr (ground arith, refl, (_, refl))
  after_migration-code legacy dir (s, err (cross_device l t)) r h = ground arith
  after_migration-code legacy dir (s, err (not_a_plain_directory p)) r h = ground arith
  after_migration-code legacy dir (s, err (io e)) r h = ground arith

  prepare_app_data-code :
      (s : F) (app_id dir : Text) (h : HostDirs) (r : Refusal)
      → (prepare_app_data fs io_text s app_id dir h).1 ≡ err r
      → (r.code ≡ 500)
        ⊎ ((r.code ≡ 409) × (Lawful fs → Keeps fs s (prepare_app_data fs io_text s app_id dir h).0))
  unfolding prepare_app_data
  prepare_app_data-code s app_id dir h r failed =
      let legacy = legacy_app_data_dir h.home app_id in
      elim (after_migration-code legacy dir (migrate_app_data fs s legacy dir) r failed) [
        | inl e ↦ inl e
        | inr (e, same, (k, refused)) ↦ inr (
          e,
          λ laws path m known.
              rw same (migrate_app_data-Keeps fs laws s legacy dir k refused path m known),
        )
      ]

  -- What a refusal with some code allows to have happened.
  abbrev Left : F → F → Refusal → Type ℓ
  Left s s' r = (s' ≡ s) ⊎ ((r.code ≡ 500) ⊎ ((r.code ≡ 409) × (Lawful fs → Keeps fs s s')))

  with_grants-err :
      (grants : SessionGrants) (x : F × Result Refusal Unit) (r : Refusal)
      → (with_grants fs io_text grants x).1 ≡ err r
      → (x.1 ≡ err r) × ((with_grants fs io_text grants x).0 ≡ x.0)
  unfolding with_grants
  with_grants-err grants (s, ok u) r h = cc
  with_grants-err grants (s, err e) r h = ground arith

  prepared-Left :
      (s : F) (app_id : Text) (grants : SessionGrants) (dir : Option GrantedDir)
      (h : Option HostDirs) (r : Refusal)
      → (prepared fs io_text s app_id grants dir h).1 ≡ err r
      → Left s (prepared fs io_text s app_id grants dir h).0 r
  unfolding prepared
  prepared-Left s app_id grants none h r failed = inl refl
  prepared-Left s app_id grants (some dir) none r failed = inl refl
  prepared-Left s app_id grants (some dir) (some h) r failed =
      let inner =
        with_grants-err grants (prepare_app_data fs io_text s app_id dir.host_path h) r failed in
      inr (rw inner.1 (prepare_app_data-code s app_id dir.host_path h r inner.0))

  planned-Left :
      (s : F) (app_id : Text) (p : Result Refusal (SessionGrants × Option HostDirs)) (r : Refusal)
      → (planned fs io_text s app_id p).1 ≡ err r
      → Left s (planned fs io_text s app_id p).0 r
  unfolding planned
  planned-Left s app_id (err e) r failed = inl refl
  planned-Left s app_id (ok (grants, h)) r failed =
      prepared-Left s app_id grants (find (λ d. text_eq d.guest (codes "/data")) grants.dirs) h r
        failed

  -- A launch refused with any code but 409 and 500 leaves the file system as it was.
  pub derive-unchanged :
      (is_utf8 : Text → Bool) (s : F) (app_id : Text) (declared : List Text)
      (host_dirs : Result Refusal HostDirs) (r : Refusal)
      → (derive fs io_text is_utf8 s app_id declared host_dirs).1 ≡ err r
      → r.code ≢ 409
      → r.code ≢ 500
      → (derive fs io_text is_utf8 s app_id declared host_dirs).0 ≡ s
  unfolding derive
  derive-unchanged is_utf8 s app_id declared host_dirs r failed other_code no_fault =
      elim (planned-Left s app_id (plan is_utf8 app_id declared host_dirs) r failed) [
        | inl same ↦ same
        | inr (inl e) ↦ absurd (no_fault e)
        | inr (inr (e, kept)) ↦ absurd (other_code e)
      ]

  -- A launch refused with any code but 500 leaves everything that existed as it was, when the file
  -- system's calls behave as documented.
  derive-Keeps :
      (is_utf8 : Text → Bool) (s : F) (app_id : Text) (declared : List Text)
      (host_dirs : Result Refusal HostDirs) (r : Refusal)
      → Lawful fs
      → (derive fs io_text is_utf8 s app_id declared host_dirs).1 ≡ err r
      → r.code ≢ 500
      → Keeps fs s (derive fs io_text is_utf8 s app_id declared host_dirs).0
  unfolding derive
  derive-Keeps is_utf8 s app_id declared host_dirs r laws failed no_fault path m known =
      elim (planned-Left s app_id (plan is_utf8 app_id declared host_dirs) r failed) [
        | inl same ↦ rw same known
        | inr (inl e) ↦ absurd (no_fault e)
        | inr (inr (e, kept)) ↦ kept laws path m known
      ]
