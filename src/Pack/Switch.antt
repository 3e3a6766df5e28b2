-- ===== src/Pack/Switch.antt =====
-- `activate`: the switch of a store's link to another revision.
pub mod Around
pub mod Once
use weft_os.Base.{
  Bool, true, false, Option, none, some, Text, codes, ◌++◌, text_eq, Result, ok, err, if◌then◌else◌,
}
use weft_os.Base.Paths.{join}
use weft_os.Base.Disk.{ErrorKind, not_found}
use weft_os.Base.Steps.{after}
use weft_os.Store.{revisions_of, link_target, Active, revision, directory, active, StoreError}
use weft_os.Pack.{
  Calls, PackError, failed, store_failed, context, previous_link, sync_dir, temporary_link,
  replace_link, remove_claimed,
}

-- `?` on an error of the store
unfoldable pub in_store {ℓ} : {A : Type ℓ} → Result StoreError A → Result PackError A
in_store (err e) = err (store_failed e)
in_store (ok a) = ok a

module _ {ℓ} {S File : Type ℓ} (k : Calls S File) where
  drop_stale : S → Result ErrorKind (Unit {0}) → Text → S × Result PackError (Unit {0})
  drop_stale s (ok done) revisions = sync_dir k s revisions
  drop_stale s (err not_found) revisions = sync_dir k s revisions
  drop_stale s (err e) revisions = (s, err (failed (codes "remove the stale rollback link") e))

  drop_previous : S → Text → S × Result PackError (Unit {0})
  unfolding drop_stale
  drop_previous s revisions =
      let (s', answer) = k.remove_file s (join revisions previous_link) in
      drop_stale s' answer revisions

  -- `kept`
  pub keep_current : S → Option Active → Text → Text → S × Result PackError (Unit {0})
  unfolding drop_previous
  keep_current s none revisions rev = drop_previous s revisions
  keep_current s (some (directory d)) revisions rev = drop_previous s revisions
  keep_current s (some (revision name d)) revisions rev =
      if text_eq name rev then (s, ok tt) else replace_link k s revisions previous_link name

  put_link : S → Option Active → Text → Text → S × Result ErrorKind (Unit {0})
  put_link s (some (directory d)) link dest = k.exchange s link dest
  put_link s (some (revision name d)) link dest = k.rename s link dest
  put_link s none link dest = k.rename s link dest

  -- the closure after `kept`
  switch : S → Option Active → Text → Text → S × Result PackError (Unit {0})
  unfolding put_link context
  switch s current link dest =
      let (s', answer) = put_link s current link dest in
      (s', context (codes "activate " ++ dest) answer)

  restore_link : S → Result ErrorKind Text → Text → S
  restore_link s (ok target) revisions = (replace_link k s revisions previous_link target).0
  restore_link s (err e) revisions = (k.remove_file s (join revisions previous_link)).0

  -- the revision kept for rollback stays what it was
  pub restore_kept : S → Option Active → Result ErrorKind Text → Text → Text → S
  unfolding restore_link
  restore_kept s none before revisions rev = s
  restore_kept s (some (directory d)) before revisions rev = s
  restore_kept s (some (revision name d)) before revisions rev =
      if text_eq name rev then s else restore_link s before revisions

  tidy : S → Option Active → Text → Text → S
  tidy s (some (directory d)) store_root link = remove_claimed k s store_root link
  tidy s (some (revision name d)) store_root link = s
  tidy s none store_root link = s

  -- the end of `activate`, on the outcome of the switch
  settle :
      S
      → Result PackError (Unit {0})
      → Text
      → Text
      → Option Active
      → Result ErrorKind Text
      → Text
      → Text
      → S × Result PackError (Unit {0})
  unfolding restore_kept tidy
  settle s (err e) store_root link current before revisions rev =
      (restore_kept (k.remove_file s link).0 current before revisions rev, err e)
  settle s (ok done) store_root link current before revisions rev =
      (tidy (sync_dir k s store_root).0 current store_root link, ok tt)

  -- `activate` once it has a link to the revision under a temporary name
  activate_with : Text → Text → Text → Option Active → S → Text → S × Result PackError (Unit {0})
  unfolding keep_current switch settle
  activate_with store_root app_id rev current s link =
      let revisions = revisions_of store_root app_id in
      let before = (k.report s).read_link (join revisions previous_link) in
      let switched =
        after (keep_current s current revisions rev)
          λ s' done. switch s' current link (join store_root app_id) in
      settle switched.0 switched.1 store_root link current before revisions rev

  activate_over : Text → Text → Text → S → Option Active → S × Result PackError (Unit {0})
  unfolding activate_with
  activate_over store_root app_id rev s current =
      after (temporary_link k s store_root app_id (link_target app_id rev))
        λ s' link. activate_with store_root app_id rev current s' link

  unfoldable pub activate : S → Text → Text → Text → S × Result PackError (Unit {0})
  unfolding activate_over in_store
  activate s store_root app_id rev =
      after (s, in_store (active (k.report s) store_root app_id))
        λ s1 current. activate_over store_root app_id rev s1 current
