-- ===== src/Pack/Rollback.antt =====
-- `rollback_package`: the revision kept for rollback becomes the active one again. The release of
-- the owner lock is left out.
pub mod Allowed
pub mod Once
use weft_os.Base.{
  ℕ, Bool, true, false, not, ◌&&◌, List, [], ◌∷◌, ◌++◌, Option, none, some, Text, codes, text_eq,
  Result, ok, err, ◌>>=◌, if◌then◌else◌,
}
use weft_os.Base.Paths.{join}
use weft_os.Base.Steps.{after}
use weft_os.Manifest.{Manifest, ManifestError, read_manifest, capability_names}
use weft_os.Package.{is_valid_app_id}
use weft_os.Store.{revisions_of, Active, revision, directory, active}
use weft_os.Trust.{Crypto, TrustError}
use weft_os.Trust.Keys.{load, signer}
use weft_os.Trust.Owners.{Owner, OwnerFiles, owner_record_path, read_owner, lock_owner}
use weft_os.Pack.{Calls, PackError, refused, manifest_failed, previous_revision}
use weft_os.Pack.Admit.{trusting, inspecting}
use weft_os.Pack.Collect.{collect}
use weft_os.Pack.Settle.{Approvals, settle_approval}
use weft_os.Pack.Switch.{in_store, activate}

-- the name of the revision, which `let Some(Active::Revision { .. })` takes
current_revision : Text → Option Active → Result PackError Text
current_revision app_id none =
    err (refused (app_id ++ codes " has no installed revision to roll back from"))
current_revision app_id (some (directory d)) =
    err (refused (app_id ++ codes " has no installed revision to roll back from"))
current_revision app_id (some (revision name d)) = ok name

-- `filter` and `with_context`
earlier_revision : Text → Text → Option Text → Result PackError Text
earlier_revision app_id current none =
    err (refused (app_id ++ codes " has no earlier revision to roll back to"))
earlier_revision app_id current (some previous) =
    if not (text_eq previous current)
    then ok previous
    else err (refused (app_id ++ codes " has no earlier revision to roll back to"))

module _ {Key Signature : Type 0} (c : Crypto Key Signature) where
  -- `signer.as_ref() == Some(&key)`
  unfoldable pub is_signer : Key → Option Key → Bool
  is_signer key none = false
  is_signer key (some k) = text_eq (c.key_bytes k) (c.key_bytes key)

  still_signed : Text → Key → Option Key → Result PackError (Unit {0})
  unfolding is_signer
  still_signed app_id key found =
      if is_signer key found
      then ok tt
      else err (
          refused (
            codes "the earlier revision of "
            ++ (app_id ++ codes " is no longer signed by a trusted key of its owner")))

-- `load_manifest`; a TOML error is its text
unfoldable pub loading : Result (ManifestError Text) Manifest → Result PackError Manifest
loading (err e) = err (manifest_failed e)
loading (ok m) = ok m

module _ {ℓ} {S File : Type ℓ} (k : Calls S File) (others : S → S) {Key Signature : Type 0}
    (c : Crypto Key Signature) (owners : OwnerFiles S File) (a : Approvals S)
    (is_utf8 : Text → Bool) (fuel : ℕ) (key_dirs : List Text) (from_utf8 : Text → Option Text)
    (from_toml : Text → Result Text Manifest) where
  -- the `match` on the record: whether its owner still stands for the revision at `dir`
  owner_allows : S → Text → Text → Option (Owner Key) → Result PackError (Unit {0})
  unfolding still_signed
  owner_allows s app_id dir none = err (refused (app_id ++ codes " has no recorded owner"))
  owner_allows s app_id dir (some Owner.development) = ok tt
  owner_allows s app_id dir (some (Owner.verified key)) =
      trusting (load c (k.report s) key_dirs) >>= (λ keys.
        inspecting (signer c (k.report s) is_utf8 fuel keys dir) >>= still_signed c app_id key)

  allowed : S → Text → Text → Text → Text → Result PackError Text
  unfolding owner_allows
  allowed s data_home store_root app_id previous =
      let dir = join (revisions_of store_root app_id) previous in
      trusting (read_owner c owners s (owner_record_path data_home app_id))
      >>= (λ owner. owner_allows s app_id dir owner >>= λ done. ok previous)

  -- the revision to roll back to: every step before the activation only reads
  unfoldable pub rollback_target : S → Text → Text → Text → Result PackError Text
  unfolding current_revision earlier_revision allowed
  rollback_target s data_home store_root app_id =
      in_store (active (k.report s) store_root app_id) >>= (λ found.
        current_revision app_id found >>= (λ current.
          earlier_revision app_id current (previous_revision k s store_root app_id)
          >>= allowed s data_home store_root app_id))

  -- the rest, once the revision is active
  tidy_up : S → Text → Text → Text → Text → S × Result PackError (Unit {0})
  unfolding loading
  tidy_up s data_home store_root app_id previous =
      let dir = join (revisions_of store_root app_id) previous in
      let s' = collect k others s store_root app_id in
      after (s', loading (read_manifest from_utf8 from_toml (k.report s') dir))
        λ t m. settle_approval a t data_home app_id (capability_names m) false

  switch_back : S → Text → Text → Text → Text → S × Result PackError (Unit {0})
  unfolding tidy_up
  switch_back s data_home store_root app_id previous =
      after (activate k s store_root app_id previous)
        λ t done. tidy_up t data_home store_root app_id previous

  unfoldable pub rollback_locked : S → Text → Text → Text → S × Result PackError (Unit {0})
  unfolding switch_back
  rollback_locked s data_home store_root app_id =
      after (s, rollback_target s data_home store_root app_id)
        λ t previous. switch_back t data_home store_root app_id previous

  -- `data_home` is that of the environment.
  unfoldable pub rollback_package : S → Option Text → Text → Text → S × Result PackError (Unit {0})
  rollback_package s none store_root app_id =
      if is_valid_app_id app_id
      then (s, err (refused (codes "cannot locate the data home to check who owns the app ID")))
      else (s, err (refused (b'\'' ∷ (app_id ++ codes "' is not a valid app ID"))))
  rollback_package s (some data_home) store_root app_id =
      if is_valid_app_id app_id
      then (let (s', answer) = lock_owner c owners s data_home app_id in
          after (s', trusting answer) λ t lock. rollback_locked t data_home store_root app_id)
      else (s, err (refused (b'\'' ∷ (app_id ++ codes "' is not a valid app ID"))))
