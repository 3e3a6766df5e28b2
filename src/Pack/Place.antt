-- ===== src/Pack/Place.antt =====
-- `place`: a staged package becomes a revision of the store, and the active one.
pub mod Around
pub mod Steps
pub mod Once
use weft_os.Base.{
  ℕ, zero, suc, Bool, true, false, not, ◌&&◌, List, [], ◌∷◌, ◌++◌, Option, none, some, Text, codes,
  filter, is_empty, Result, ok, err, ◌>>=◌, if◌then◌else◌,
}
use weft_os.Base.Paths.{join}
use weft_os.Base.Disk.{ErrorKind, already_exists, FileType, folder}
use weft_os.Base.Steps.{after}
use weft_os.Store.{revisions_of, revisions_dir}
use weft_os.Store.Pin.{try_claim}
use weft_os.Trust.{Crypto}
use weft_os.Trust.Inventory.{content_digest, Failure}
use weft_os.Trust.Owners.{Owner}
use weft_os.Pack.{
  Calls, PackError, failed, refused, inventory_failed, too_deep, context, is_there, ignored,
  sync_dir, same_revision, remove_claimed,
}
use weft_os.Pack.Switch.{activate}

pub record Admission (Key : Type 0) : Type 0 where
  pub owner : Owner Key
  pub created_record : Option Text

-- `take_while` and `reverse`
missing_dirs : (Text → Bool) → List Text → List Text
missing_dirs there [] = []
missing_dirs there (dir ∷ dirs) =
    let rest = missing_dirs there dirs in if there dir then [] else rest ++ (dir ∷ [])

module _ {ℓ} {S File : Type ℓ} (k : Calls S File) where
  opened_to_all : S → Result ErrorKind (Unit {0}) → Text → S × Result PackError (Unit {0})
  opened_to_all s (ok done) dir = (s, ok tt)
  opened_to_all s (err e) dir =
      (ignored k (k.remove_dir s dir), err (failed (codes "set the mode of " ++ dir) e))

  created_dir : S → Result ErrorKind (Unit {0}) → Text → S × Result PackError (Unit {0})
  unfolding opened_to_all
  created_dir s (err already_exists) dir = (s, ok tt)
  created_dir s (err e) dir = (s, err (failed (codes "create " ++ dir) e))
  created_dir s (ok done) dir =
      let (s', answer) = k.open_to_all s dir in opened_to_all s' answer dir

  create_missing : S → List Text → S × Result PackError (Unit {0})
  unfolding created_dir
  create_missing s [] = (s, ok tt)
  create_missing s (dir ∷ dirs) =
      let (s', answer) = k.create_dir s dir in
      after (created_dir s' answer dir) λ t done. create_missing t dirs

  -- `ensure!`
  require_dir : S → Text → S × Result PackError (Unit {0})
  require_dir s store_root =
      if k.is_dir s store_root
      then (s, ok tt)
      else (s, err (refused (store_root ++ codes " is not a directory")))

  unfoldable pub create_store : S → Text → S × Result PackError (Unit {0})
  unfolding create_missing missing_dirs require_dir
  create_store s store_root =
      let above = filter (λ dir. not (is_empty dir)) (k.ancestors store_root) in
      after (create_missing s (missing_dirs (is_there k s) above))
        λ t done. require_dir t store_root

  sync_entry :
      (S → Text → S × Result PackError (Unit {0}))
      → S
      → Text
      → Result ErrorKind FileType
      → S × Result PackError (Unit {0})
  unfolding context
  sync_entry deeper s path (err e) = (s, err (failed [] e))
  sync_entry deeper s path (ok folder) = deeper s path
  sync_entry deeper s path (ok kind) =
      let (s', answer) = k.sync s path in (s', context (codes "sync " ++ path) answer)

  -- the `for` loop
  sync_entries :
      (S → Text → S × Result PackError (Unit {0}))
      → Text
      → S
      → List (Result ErrorKind Text)
      → S × Result PackError (Unit {0})
  unfolding sync_entry
  sync_entries deeper dir s [] = (s, ok tt)
  sync_entries deeper dir s (err e ∷ entries) = (s, err (failed [] e))
  sync_entries deeper dir s (ok name ∷ entries) =
      let path = join dir name in
      after (sync_entry deeper s path ((k.report s).symlink_metadata path))
        λ t done. sync_entries deeper dir t entries

  unfoldable pub sync_tree : ℕ → S → Text → S × Result PackError (Unit {0})
  unfolding sync_entries context
  sync_tree zero s dir = (s, err too_deep)
  sync_tree (suc fuel) s dir =
      after (s, context (codes "read " ++ dir) ((k.report s).read_dir dir))
        λ s1 entries.
          after (sync_entries (sync_tree fuel) dir s1 entries) λ s2 done. sync_dir k s2 dir

  -- The state of `place` has the revision that it created, if any.
  abbrev pub Placing : Type ℓ
  Placing = S × Option Text

  -- `sync_dir` of the revisions, and the revision's name
  settled : Placing → Text → Text → Text → Placing × Result PackError Text
  settled (s, created) store_root app_id rev =
      let m =
        after (sync_dir k s (revisions_of store_root app_id))
          λ t done. sync_dir k t (join store_root revisions_dir) in
      ((m.0, created), elim m.1 [ err e ↦ err e | ok done ↦ ok rev ])

  exchanged :
      S
      → Result ErrorKind (Unit {0})
      → File
      → Text
      → Text
      → Text
      → Text
      → Placing × Result PackError Text
  unfolding settled
  exchanged s (err e) claim staging store_root app_id rev =
      let dir = join (revisions_of store_root app_id) rev in
      (
        (k.locks.close s claim, none),
        err (failed (codes "replace " ++ (dir ++ (codes " with " ++ staging))) e),
      )
  exchanged s (ok done) claim staging store_root app_id rev =
      settled (k.locks.close (remove_claimed k s store_root staging) claim, none) store_root app_id
        rev

  -- another revision has the name
  replace_revision :
      S × Result ErrorKind (Option File)
      → Text
      → Text
      → Text
      → Text
      → Placing × Result PackError Text
  unfolding exchanged
  replace_revision (s, err e) staging store_root app_id rev =
      let dir = join (revisions_of store_root app_id) rev in
      ((s, none), err (failed (codes "open " ++ dir) e))
  replace_revision (s, ok none) staging store_root app_id rev =
      let dir = join (revisions_of store_root app_id) rev in
      (
        (s, none),
        err (
            refused (
              dir
              ++ codes
                  " differs from this package but a running session uses it; close the app and install again")),
      )
  replace_revision (s, ok (some claim)) staging store_root app_id rev =
      let (t, answer) = k.exchange s staging (join (revisions_of store_root app_id) rev) in
      exchanged t answer claim staging store_root app_id rev

  moved :
      S → Result ErrorKind (Unit {0}) → Text → Text → Text → Text → Placing × Result PackError Text
  unfolding settled
  moved s (err e) staging store_root app_id rev =
      let dir = join (revisions_of store_root app_id) rev in
      ((s, none), err (failed (codes "move " ++ (staging ++ (codes " -> " ++ dir))) e))
  moved s (ok done) staging store_root app_id rev =
      settled (s, some (join (revisions_of store_root app_id) rev)) store_root app_id rev

  activate_placed : Text → Text → Placing → Text → Placing × Result PackError Text
  activate_placed store_root app_id (s, created) rev =
      let m = activate k s store_root app_id rev in
      ((m.0, created), elim m.1 [ err e ↦ err e | ok done ↦ ok rev ])

  remove_created : S → Option Text → S
  remove_created s none = s
  remove_created s (some dir) = ignored k (k.remove_dir_all s dir)

  remove_record : S → Option Text → S
  remove_record s none = s
  remove_record s (some path) = ignored k (k.remove_file s path)

  pub undo : Placing × Result PackError Text → Text → Option Text → S × Result PackError Text
  unfolding remove_created remove_record
  undo ((s, created), ok rev) staging record_path = (s, ok rev)
  undo ((s, created), err e) staging record_path = (
    remove_record (remove_created (ignored k (k.remove_dir_all s staging)) created) record_path,
    err e,
  )

  module _ (others : S → S) {Key Signature : Type 0} (c : Crypto Key Signature)
      (is_utf8 : Text → Bool) (fuel : ℕ) where
    -- `hex::encode(content_digest(dir)?)`
    unfoldable pub revision_name : S → Text → Result Failure Text
    revision_name s dir =
        content_digest c is_utf8 (k.report s) fuel dir >>= λ digest. ok (c.hex_encode digest)

    -- the closure from the test of the revision's directory on
    pub place_revision : S → Text → Text → Text → Text → Placing × Result PackError Text
    unfolding replace_revision moved
    place_revision s staging store_root app_id rev =
        let dir = join (revisions_of store_root app_id) rev in
        if is_there k s dir
        then (if same_revision k revision_name s dir staging rev
            then ((ignored k (k.remove_dir_all s staging), none), ok rev)
            else replace_revision (try_claim k.locks others s dir) staging store_root app_id rev)
        else (let (t, answer) = k.rename_no_replace s staging dir in
            moved t answer staging store_root app_id rev)

    prepare_store : S → Text → Text → Text → Text → S × Result PackError Text
    prepare_store s staging store_root app_id rev =
        after (create_store s (revisions_of store_root app_id))
          λ s1 done. after (sync_tree fuel s1 staging) λ s2 done'. (s2, ok rev)

    -- the first steps, which create no revision
    prepare : S → Result Failure Text → Text → Text → Text → S × Result PackError Text
    unfolding prepare_store
    prepare s (err e) staging store_root app_id = (s, err (inventory_failed e))
    prepare s (ok rev) staging store_root app_id = prepare_store s staging store_root app_id rev

    in_revision : S × Result PackError Text → Text → Text → Text → Placing × Result PackError Text
    unfolding place_revision
    in_revision (s, err e) staging store_root app_id = ((s, none), err e)
    in_revision (s, ok rev) staging store_root app_id =
        place_revision s staging store_root app_id rev

    -- the closure, and its `and_then`
    placed : S → Text → Text → Text → Placing × Result PackError Text
    unfolding prepare in_revision activate_placed
    placed s staging store_root app_id =
        let m = prepare s (revision_name s staging) staging store_root app_id in
        after (in_revision m staging store_root app_id)
          λ st rev. activate_placed store_root app_id st rev

    unfoldable pub place : S → Text → Text → Text → Admission Key → S × Result PackError Text
    unfolding placed undo
    place s staging store_root app_id admission =
        undo (placed s staging store_root app_id) staging admission.created_record
