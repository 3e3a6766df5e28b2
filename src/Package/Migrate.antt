-- ===== src/Package/Migrate.antt =====
-- The move of an earlier version's data, against what the file system calls are documented to do.
use weft_os.Base.{
  ◌≡◌, ◌≢◌, refl, ◌∙◌, inl, inr, true, false, Bool-cases, Option, none, some, Text, Result, ok, err,
  is_ok,
}
use weft_os.Package.{
  IoKind, not_found, Entry, FileSystem, Migration, moved, MigrationError, remove_package_dir,
  renamed, with_parent, move, migrate_entry, migrate_app_data,
}

module _ {ℓ} {F : Type ℓ} (fs : FileSystem F) where
  -- Everything that existed before a step is there, as it was, after it.
  abbrev pub Keeps : F → F → Type 0
  Keeps s s' =
      (path : Text) (m : Entry)
      → fs.symlink_metadata s path ≡ ok m
      → fs.symlink_metadata s' path ≡ ok m

  -- `s'` has at `target` the directory that `s` had at `legacy`, and nothing at `legacy`.
  abbrev pub MovesTo : Text → Text → F → F → Type 0
  MovesTo legacy target s s' =
      (entry : Entry) × (entry.is_dir ≡ true)
      × (fs.symlink_metadata s legacy ≡ ok entry)
      × (is_ok (fs.symlink_metadata s target) ≡ false)
      × (fs.symlink_metadata s' target ≡ ok entry)
      × (fs.symlink_metadata s' legacy ≡ err not_found)

  abbrev Apart : Text → Text → Type 0
  Apart legacy path = (dir : Text) → fs.parent legacy ≡ some dir → path ≢ dir

  -- The documented behaviour of the calls: `create_dir_all` replaces nothing, a rename that is
  -- refused does nothing, one that succeeds takes the entry to a name that was free, and
  -- `remove_dir` removes nothing but an empty directory of that name.
  pub record Lawful : Type ℓ where
    pub create_dir_all-Keeps : (s : F) (dir : Text) → Keeps s (fs.create_dir_all s dir).0
    pub rename-refused :
        (s : F) (from to : Text) (e : IoKind)
        → (fs.rename_no_replace s from to).1 ≡ err e
        → (fs.rename_no_replace s from to).0 ≡ s
    pub rename-moves :
        (s : F) (from to : Text)
        → (fs.rename_no_replace s from to).1 ≡ ok tt
        → (fs.symlink_metadata (fs.rename_no_replace s from to).0 to ≡ fs.symlink_metadata s from)
          × (fs.symlink_metadata (fs.rename_no_replace s from to).0 from ≡ err not_found)
    pub remove_dir-keeps :
        (s : F) (dir path : Text)
        → path ≢ dir
        → fs.symlink_metadata (fs.remove_dir s dir).0 path ≡ fs.symlink_metadata s path

  err-ne-ok : {A : Type 0} {E : Type 0} {e : E} {a : A} → ◌≢◌ {A = Result E A} (err e) (ok a)
  err-ne-ok h = cc

  renamed-eq-err :
      (legacy target : Text) (s : F) (r : Result IoKind Unit) (e : MigrationError)
      → (renamed fs legacy target (s, r)).1 ≡ err e
      → ((renamed fs legacy target (s, r)).0 ≡ s) × ((k : IoKind) × (r ≡ err k))
  unfolding renamed
  renamed-eq-err legacy target s (ok u) e h = cc
  renamed-eq-err legacy target s (err IoKind.not_found) e h = (refl, (_, refl))
  renamed-eq-err legacy target s (err IoKind.not_a_directory) e h = (refl, (_, refl))
  renamed-eq-err legacy target s (err IoKind.already_exists) e h = (refl, (_, refl))
  renamed-eq-err legacy target s (err IoKind.crosses_devices) e h = (refl, (_, refl))
  renamed-eq-err legacy target s (err IoKind.other_kind) e h = (refl, (_, refl))

  renamed-eq-ok :
      (legacy target : Text) (s : F) (r : Result IoKind Unit) (m : Migration)
      → (renamed fs legacy target (s, r)).1 ≡ ok m
      → ((renamed fs legacy target (s, r)).0 ≡ remove_package_dir fs s (fs.parent legacy))
        × (r ≡ ok tt)
  unfolding renamed
  renamed-eq-ok legacy target s (ok u) m h = (refl, refl)
  renamed-eq-ok legacy target s (err IoKind.not_found) m h = cc
  renamed-eq-ok legacy target s (err IoKind.not_a_directory) m h = cc
  renamed-eq-ok legacy target s (err IoKind.already_exists) m h = cc
  renamed-eq-ok legacy target s (err IoKind.crosses_devices) m h = cc
  renamed-eq-ok legacy target s (err IoKind.other_kind) m h = cc

  module _ (laws : Lawful) where
    with_parent-Keeps : (s : F) (dir : Option Text) → Keeps s (with_parent fs s dir).0
    unfolding with_parent
    with_parent-Keeps s none path m known = known
    with_parent-Keeps s (some dir) path m known = laws.create_dir_all-Keeps s dir path m known

    move-Keeps :
        (legacy target : Text) (s t : F) (r : Result IoKind Unit) (e : MigrationError)
        → Keeps s t
        → (move fs legacy target (t, r)).1 ≡ err e
        → Keeps s (move fs legacy target (t, r)).0
    unfolding move
    move-Keeps legacy target s t (err k) e kept h path m known = kept path m known
    move-Keeps legacy target s t (ok u) e kept h path m known =
        let rename = fs.rename_no_replace t legacy target in
        let refused = renamed-eq-err legacy target rename.0 rename.1 e h in
        rw (refused.0, laws.rename-refused t legacy target refused.1.0 refused.1.1)
          (kept path m known)

    migrate_entry-Keeps :
        (s : F) (legacy target : Text) (r : Result IoKind Entry) (e : MigrationError)
        → (migrate_entry fs s legacy target r).1 ≡ err e
        → Keeps s (migrate_entry fs s legacy target r).0
    unfolding migrate_entry
    migrate_entry-Keeps s legacy target (err IoKind.not_found) e h path m known = known
    migrate_entry-Keeps s legacy target (err IoKind.not_a_directory) e h path m known = known
    migrate_entry-Keeps s legacy target (err IoKind.already_exists) e h path m known = known
    migrate_entry-Keeps s legacy target (err IoKind.crosses_devices) e h path m known = known
    migrate_entry-Keeps s legacy target (err IoKind.other_kind) e h path m known = known
    migrate_entry-Keeps s legacy target (ok entry) e h path m known =
        elim (Bool-cases entry.is_dir) [
          | inl d ↦ elim (Bool-cases (is_ok (fs.symlink_metadata s target))) [
            | inl x ↦ rw (d, x) known
            | inr x ↦
                rw (d, x)
                  (let made = with_parent fs s (fs.parent target) in
                    move-Keeps legacy target s made.0 made.1 e
                      (with_parent-Keeps s (fs.parent target)) (rw (d, x) at h) path m known)
          ]
          | inr d ↦ rw d known
        ]

    -- When the calls behave as documented, a move that is refused leaves everything that existed as
    -- it was, the data in the earlier place and in the new one included.
    pub migrate_app_data-Keeps :
        (s : F) (legacy target : Text) (e : MigrationError)
        → (migrate_app_data fs s legacy target).1 ≡ err e
        → Keeps s (migrate_app_data fs s legacy target).0
    unfolding migrate_app_data
    migrate_app_data-Keeps s legacy target e h =
        migrate_entry-Keeps s legacy target (fs.symlink_metadata s legacy) e h

    remove_package_dir-keeps :
        (s : F) (dir : Option Text) (path : Text)
        → ((d : Text) → dir ≡ some d → path ≢ d)
        → fs.symlink_metadata (remove_package_dir fs s dir) path ≡ fs.symlink_metadata s path
    unfolding remove_package_dir
    remove_package_dir-keeps s none path apart = refl
    remove_package_dir-keeps s (some d) path apart = laws.remove_dir-keeps s d path (apart d refl)

    move-MovesTo :
        (legacy target : Text) (made : F × Result IoKind Unit) (m : Migration) (entry : Entry)
        → Apart legacy target
        → Apart legacy legacy
        → fs.symlink_metadata made.0 legacy ≡ ok entry
        → (move fs legacy target made).1 ≡ ok m
        → (fs.symlink_metadata (move fs legacy target made).0 target ≡ ok entry)
          × (fs.symlink_metadata (move fs legacy target made).0 legacy ≡ err not_found)
    unfolding move
    move-MovesTo legacy target (t, err k) m entry at al known h = cc
    move-MovesTo legacy target (t, ok u) m entry at al known h =
        let rename = fs.rename_no_replace t legacy target in
        let done = renamed-eq-ok legacy target rename.0 rename.1 m h in
        let moves = laws.rename-moves t legacy target done.1 in
        rw done.0 (
          remove_package_dir-keeps rename.0 (fs.parent legacy) target at ∙ moves.0 ∙ known,
          remove_package_dir-keeps rename.0 (fs.parent legacy) legacy al ∙ moves.1,
        )

    migrate_entry-move :
        (s : F) (legacy target : Text) (entry : Entry)
        → (migrate_entry fs s legacy target (ok entry)).1 ≡ ok moved
        → (entry.is_dir ≡ true)
          × (is_ok (fs.symlink_metadata s target) ≡ false)
          × (migrate_entry fs s legacy target (ok entry)
              ≡ move fs legacy target (with_parent fs s (fs.parent target)))
    unfolding migrate_entry
    migrate_entry-move s legacy target entry h = elim (Bool-cases entry.is_dir) [
      | inl d ↦ elim (Bool-cases (is_ok (fs.symlink_metadata s target))) [
        | inl x ↦ absurd (err-ne-ok (rw (d, x) at h))
        | inr x ↦ (d, x, rw (d, x) refl)
      ]
      | inr d ↦ absurd (err-ne-ok (rw d at h))
    ]

    migrate_entry-none :
        (s : F) (legacy target : Text) (k : IoKind)
        → (migrate_entry fs s legacy target (err k)).1 ≢ ok moved
    unfolding migrate_entry
    migrate_entry-none s legacy target IoKind.not_found h = cc
    migrate_entry-none s legacy target IoKind.not_a_directory h = cc
    migrate_entry-none s legacy target IoKind.already_exists h = cc
    migrate_entry-none s legacy target IoKind.crosses_devices h = cc
    migrate_entry-none s legacy target IoKind.other_kind h = cc

    migrate_entry-MovesTo :
        (s : F) (legacy target : Text) (r : Result IoKind Entry)
        → fs.symlink_metadata s legacy ≡ r
        → Apart legacy target
        → Apart legacy legacy
        → (migrate_entry fs s legacy target r).1 ≡ ok moved
        → MovesTo legacy target s (migrate_entry fs s legacy target r).0
    migrate_entry-MovesTo s legacy target (err k) known at al h =
        absurd (migrate_entry-none s legacy target k h)
    migrate_entry-MovesTo s legacy target (ok entry) known at al h =
        let made = with_parent fs s (fs.parent target) in
        let kept = with_parent-Keeps s (fs.parent target) legacy entry known in
        let way = migrate_entry-move s legacy target entry h in
        let arrived = move-MovesTo legacy target made moved entry at al kept (rw way.2 at h) in
        (entry, way.0, known, way.1, rw way.2 arrived.0, rw way.2 arrived.1)

    -- When the calls behave as documented and neither path is the directory that contains the
    -- earlier place, a move that is reported took the directory from the earlier place to a new
    -- place that was free, and nothing is left of it in the earlier place.
    pub migrate_app_data-MovesTo :
        (s : F) (legacy target : Text)
        → ((dir : Text) → fs.parent legacy ≡ some dir → target ≢ dir)
        → ((dir : Text) → fs.parent legacy ≡ some dir → legacy ≢ dir)
        → (migrate_app_data fs s legacy target).1 ≡ ok moved
        → MovesTo legacy target s (migrate_app_data fs s legacy target).0
    unfolding migrate_app_data
    migrate_app_data-MovesTo s legacy target at al h =
        migrate_entry-MovesTo s legacy target (fs.symlink_metadata s legacy) refl at al h
