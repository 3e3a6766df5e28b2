-- ===== src/Store/Resolve.antt =====
-- Which package of a store is active.
use weft_os.Base.{
  ◌≡◌, ◌≢◌, refl, ◌⊎◌, true, ◌&&◌, ◌||◌, not, &&-eq-true, [], ◌∷◌, ◌==◌, Option, none, some, Text,
  text_eq, all, length, leb, is_digit, arith, Result, ok, err,
}
use weft_os.Base.Paths.{IsName, is_plain, components, join, file_name}
use weft_os.Base.Paths.Compare.{path_eq-components, file_name-join}
use weft_os.Base.Disk.{Disk, not_found, FileType, regular, folder, link, special}
use weft_os.Store.{
  revisions_dir, revisions_of, link_target, is_revision_name, Active, revision, directory,
  StoreError, io, not_a_package, linked_revision, revision_at, follow, through_link, active_at,
  active,
}

hex-no_slash :
    (n : Text)
    → all (λ b. is_digit b || (leb b'a' b && leb b b'f')) n ≡ true
    → all (λ b. not (b == b'/')) n ≡ true
unfolding all
hex-no_slash [] h = refl
hex-no_slash (b ∷ n) h = ground (arith, hex-no_slash n)

long-is_plain : (n : Text) → (length n == 64) ≡ true → is_plain n ≡ true
unfolding text_eq
long-is_plain [] h = cc
long-is_plain (a ∷ []) h = cc
long-is_plain (a ∷ b ∷ []) h = cc
long-is_plain (a ∷ b ∷ c ∷ n) h = ground arith

-- A revision name is one component of a path.
pub is_revision_name-IsName : (n : Text) → is_revision_name n ≡ true → IsName n
unfolding is_revision_name
is_revision_name-IsName n h =
    let parts =
      &&-eq-true (length n == 64) (all (λ b. is_digit b || (leb b'a' b && leb b b'f')) n) h in
    (long-is_plain n parts.0, hex-no_slash n parts.1)

module _ (fs : Disk) (store_root app_id : Text) where
  abbrev pub entry : Text
  entry = join store_root app_id

  abbrev pub revision_dir : Text → Text
  revision_dir name = join (revisions_of store_root app_id) name

  -- `target` is the link to the revision `name` of the app.
  abbrev pub Names : Text → Text → Type 0
  Names target name =
      (is_revision_name name ≡ true) × (components target ≡ components (link_target app_id name))

  -- `<store>/<app_id>` is a link to the revision `name` of the app.
  abbrev pub LinksTo : Text → Type 0
  LinksTo name =
      (target : Text) × (fs.symlink_metadata entry ≡ ok link)
      × (fs.read_link entry ≡ ok target)
      × Names target name

  -- `<store>/<app_id>` is there, but is neither a directory nor a link to a revision of the app.
  abbrev pub Stray : Type 0
  Stray =
      (fs.symlink_metadata entry ≡ ok regular)
      ⊎ ((fs.symlink_metadata entry ≡ ok special)
          ⊎ ((target : Text) × (fs.symlink_metadata entry ≡ ok link)
              × (fs.read_link entry ≡ ok target)
              × ((name : Text) → Names target name → ⊥)))

  abbrev pub Resolved : Result StoreError (Option Active) → Type 0
  Resolved (ok none) = fs.symlink_metadata entry ≡ err not_found
  Resolved (ok (some (directory d))) = (d ≡ entry) × (fs.symlink_metadata entry ≡ ok folder)
  Resolved (ok (some (revision name d))) =
      LinksTo name × (d ≡ revision_dir name) × (fs.symlink_metadata d ≡ ok folder)
  Resolved (err (not_a_package p)) =
      (p ≡ entry)
      × (Stray
          ⊎ ((name : Text) × (t : FileType) × LinksTo name
              × (fs.symlink_metadata (revision_dir name) ≡ ok t)
              × (t ≢ folder)))
  Resolved (err (io p e)) =
      ((p ≡ entry) × (fs.symlink_metadata p ≡ err e) × (e ≢ not_found))
      ⊎ (((p ≡ entry) × (fs.symlink_metadata p ≡ ok link) × (fs.read_link p ≡ err e))
          ⊎ ((name : Text) × LinksTo name
              × (p ≡ revision_dir name)
              × (fs.symlink_metadata p ≡ err e)))

  linked_revision-Names :
      (target name : Text)
      → Names target name
      → linked_revision app_id (file_name target) target ≡ some name
  unfolding linked_revision link_target
  linked_revision-Names target name n =
      rw
        (
          file_name-join target (join revisions_dir app_id) name (is_revision_name-IsName name n.0)
              n.1,
          n.0,
          path_eq-components target (link_target app_id name) n.1,
        )
        refl

  -- When `<store>/<app_id>` is the link that package operations write for a revision, and the
  -- directory of that revision is there, that revision is the active one.
  active-link_target :
      (name : Text)
      → is_revision_name name ≡ true
      → fs.symlink_metadata entry ≡ ok link
      → fs.read_link entry ≡ ok (link_target app_id name)
      → fs.symlink_metadata (revision_dir name) ≡ ok folder
      → active fs store_root app_id ≡ ok (some (revision name (revision_dir name)))
  unfolding active active_at through_link follow revision_at
  active-link_target name named m l d =
      rw (m, l, linked_revision-Names (link_target app_id name) name (named, refl), d) refl
