-- ===== src/Pack/Rollback/Once.antt =====
-- About `rollback_package` under the lock: what becomes of the entry at the package's name.
use weft_os.Base.{
  ◌≡◌, refl, ◌∙◌, ◌⊎◌, inl, inr, ℕ, Bool, true, false, List, ◌∷◌, Option, Text, Result, ok, err,
}
use weft_os.Base.Paths.{join}
use weft_os.Base.Steps.{after, after-same}
use weft_os.Manifest.{Manifest, read_manifest, capability_names}
use weft_os.Package.{is_valid_app_id}
use weft_os.Store.{revisions_of, link_target}
use weft_os.Trust.{Crypto}
use weft_os.Trust.Owners.{OwnerFiles}
use weft_os.Pack.{Calls, PackError}
use weft_os.Pack.Collect.{collect}
use weft_os.Pack.Collect.Revisions.{collect-app_id}
use weft_os.Pack.Settle.{Approvals, settle_approval}
use weft_os.Pack.Settle.Around.{settle_approval-same}
use weft_os.Pack.Switch.Once.{Switched, activate-Switched}
use weft_os.Pack.Seen.{Entry, link_to, Local, Atomic}
use weft_os.Pack.Rollback.Allowed.{Target, rollback_target-Target}
use weft_os.Pack.Rollback.{loading, rollback_target, tidy_up, switch_back, rollback_locked}

module _ {ℓ} {S File : Type ℓ} (k : Calls S File) (others : S → S) {Key Signature : Type 0}
    (c : Crypto Key Signature) (owners : OwnerFiles S File) (a : Approvals S)
    (is_utf8 : Text → Bool) (fuel : ℕ) (key_dirs : List Text) (from_utf8 : Text → Option Text)
    (from_toml : Text → Result Text Manifest) (seen : S → Text → List Entry) where
  -- The package's name got the link to a revision that may be rolled back to, and nothing else.
  abbrev pub Rolled : S → S → Text → Text → Text → Type 0
  Rolled s t data_home store id =
      (previous : Text) × Target k others c owners a is_utf8 fuel key_dirs from_utf8 from_toml s
        data_home store id previous
      × (seen t (join store id) ≡ link_to (link_target id previous) ∷ seen s (join store id))

  abbrev pub RolledBack : S → S × Result PackError (Unit {0}) → Text → Text → Text → Type 0
  RolledBack s (t, ok done) data_home store id = Rolled s t data_home store id
  RolledBack s (t, err e) data_home store id =
      (seen t (join store id) ≡ seen s (join store id)) ⊎ Rolled s t data_home store id

  module _ (here : Local k seen) (atomic : Atomic k seen) (data_home store id : Text)
      (valid : is_valid_app_id id ≡ true)
      (quiet : (s : S) → seen (others s) (join store id) ≡ seen s (join store id))
      (apart : (s : S) (path : Text) (text : Option Text)
        → seen (a.write_record s path text).0 (join store id) ≡ seen s (join store id)) where
    tidy_up-same :
        (s : S) (previous : Text)
        → seen
            (tidy_up k others c owners a is_utf8 fuel key_dirs from_utf8 from_toml s data_home store
              id previous).0
            (join store id)
          ≡ seen s (join store id)
    unfolding tidy_up
    tidy_up-same s previous =
        let s' = collect k others s store id in
        after-same (λ t. seen t (join store id)) s
          (
            s',
            loading (
                read_manifest from_utf8 from_toml (k.report s')
                  (join (revisions_of store id) previous)),
          )
          (λ t m. settle_approval a t data_home id (capability_names m) false)
          (collect-app_id k seen here others store id valid s quiet)
          λ t m.
            settle_approval-same a (λ t. seen t (join store id)) apart t data_home id
              (capability_names m) false

    Rolled-RolledBack :
        (s : S) (m : S × Result PackError (Unit {0}))
        → Rolled s m.0 data_home store id
        → RolledBack s m data_home store id
    Rolled-RolledBack s (t, ok done) h = h
    Rolled-RolledBack s (t, err e) h = inr h

    Switched-RolledBack :
        (s : S) (previous : Text) (m : S × Result PackError (Unit {0}))
        → Target k others c owners a is_utf8 fuel key_dirs from_utf8 from_toml s data_home store id
            previous
        → Switched k seen (join store id) (link_target id previous) s m
        → RolledBack s
            (after m λ t done.
              tidy_up k others c owners a is_utf8 fuel key_dirs from_utf8 from_toml t data_home
                store id previous)
            data_home
            store
            id
    Switched-RolledBack s previous (t, err e) target h = inl h
    Switched-RolledBack s previous (t, ok done) target h =
        Rolled-RolledBack s _ (previous, target, tidy_up-same t previous ∙ h)

    targeted-RolledBack :
        (s : S) (found : Result PackError Text)
        → rollback_target k others c owners a is_utf8 fuel key_dirs from_utf8 from_toml s data_home
            store id
          ≡ found
        → RolledBack s
            (after
              (s, found)
              λ t previous.
                switch_back k others c owners a is_utf8 fuel key_dirs from_utf8 from_toml t
                  data_home store id previous)
            data_home
            store
            id
    unfolding switch_back
    targeted-RolledBack s (err e) is_found = inl refl
    targeted-RolledBack s (ok previous) is_found =
        Switched-RolledBack s previous _
          (rollback_target-Target k others c owners a is_utf8 fuel key_dirs from_utf8 from_toml s
            data_home store id previous is_found)
          (activate-Switched k seen here atomic store id previous valid s)

    -- Under the laws of the calls, a rollback that succeeds puts the link to the revision kept for
    -- rollback at the package's name in one step; that revision is not the active one, and the owner
    -- record says development or a publisher whose trusted key signed it. One that fails did the
    -- same, or left the name as it was.
    pub rollback_locked-RolledBack :
        (s : S)
        → RolledBack s
            (rollback_locked k others c owners a is_utf8 fuel key_dirs from_utf8 from_toml s
              data_home store id)
            data_home
            store
            id
    unfolding rollback_locked
    rollback_locked-RolledBack s = targeted-RolledBack s _ refl
