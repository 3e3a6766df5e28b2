-- ===== src/Pack/Rollback/Allowed.antt =====
-- About the revision that `rollback_package` decides on.
use weft_os.Base.{
  ◌≡◌, refl, ap, inl, inr, ℕ, Bool, true, false, Bool-cases, List, Option, none, some, Text,
  text_eq, Result, ok, err, bind-eq-ok, ok-injective,
}
use weft_os.Base.Paths.{join}
use weft_os.Manifest.{Manifest}
use weft_os.Store.{revisions_of, Active, revision, directory, active, StoreError}
use weft_os.Trust.{Crypto, TrustError}
use weft_os.Trust.Inventory.{Failure}
use weft_os.Trust.Keys.{load, signer}
use weft_os.Trust.Owners.{Owner, OwnerFiles, owner_record_path, read_owner}
use weft_os.Pack.{Calls, previous_revision}
use weft_os.Pack.Admit.{trusting, inspecting}
use weft_os.Pack.Settle.{Approvals}
use weft_os.Pack.Switch.{in_store}
use weft_os.Pack.Rollback.{
  current_revision, earlier_revision, is_signer, still_signed, owner_allows, allowed,
  rollback_target,
}

trusting-eq-ok {ℓ} : {A : Type ℓ} (r : Result TrustError A) (x : A) → trusting r ≡ ok x → r ≡ ok x
unfolding trusting
trusting-eq-ok (err e) x h = cc
trusting-eq-ok (ok y) x h = ap ok (ok-injective h)

inspecting-eq-ok {ℓ} : {A : Type ℓ} (r : Result Failure A) (x : A) → inspecting r ≡ ok x → r ≡ ok x
unfolding inspecting
inspecting-eq-ok (err e) x h = cc
inspecting-eq-ok (ok y) x h = ap ok (ok-injective h)

in_store-eq-ok {ℓ} : {A : Type ℓ} (r : Result StoreError A) (x : A) → in_store r ≡ ok x → r ≡ ok x
unfolding in_store
in_store-eq-ok (err e) x h = cc
in_store-eq-ok (ok y) x h = ap ok (ok-injective h)

current_revision-eq-ok :
    (app_id : Text) (found : Option Active) (current : Text)
    → current_revision app_id found ≡ ok current
    → (d : Text) × (found ≡ some (revision current d))
unfolding current_revision
current_revision-eq-ok app_id none current h = cc
current_revision-eq-ok app_id (some (directory d)) current h = cc
current_revision-eq-ok app_id (some (revision name d)) current h =
    (d, ap (λ n. some (revision n d)) (ok-injective h))

earlier_revision-eq-ok :
    (app_id current : Text) (found : Option Text) (previous : Text)
    → earlier_revision app_id current found ≡ ok previous
    → (found ≡ some previous) × (text_eq previous current ≡ false)
unfolding earlier_revision
earlier_revision-eq-ok app_id current none previous h = cc
earlier_revision-eq-ok app_id current (some p) previous h = elim (Bool-cases (text_eq p current)) [
  | inl e ↦ let refused = rw e at h in cc
  | inr e ↦ let same = ok-injective (rw e at h) in (ap some same, rw⁻¹ same e)
]

module _ {Key Signature : Type 0} (c : Crypto Key Signature) where
  still_signed-eq-ok :
      (app_id : Text) (key : Key) (found : Option Key) (done : Unit {0})
      → still_signed c app_id key found ≡ ok done
      → (by : Key) × (found ≡ some by) × (text_eq (c.key_bytes by) (c.key_bytes key) ≡ true)
  unfolding still_signed is_signer
  still_signed-eq-ok app_id key none done h = cc
  still_signed-eq-ok app_id key (some by) done h =
      elim (Bool-cases (text_eq (c.key_bytes by) (c.key_bytes key))) [
        | inl e ↦ (by, refl, e)
        | inr e ↦ let refused = rw e at h in cc
      ]

module _ {ℓ} {S File : Type ℓ} (k : Calls S File) (others : S → S) {Key Signature : Type 0}
    (c : Crypto Key Signature) (owners : OwnerFiles S File) (a : Approvals S)
    (is_utf8 : Text → Bool) (fuel : ℕ) (key_dirs : List Text) (from_utf8 : Text → Option Text)
    (from_toml : Text → Result Text Manifest) where
  -- The record says development, or a publisher whose trusted key signed the revision at `dir`.
  abbrev pub Allows : S → Text → Option (Owner Key) → Type 0
  Allows s dir none = ⊥
  Allows s dir (some Owner.development) = Unit
  Allows s dir (some (Owner.verified key)) =
      (keys : List Key) × (by : Key) × (load c (k.report s) key_dirs ≡ ok keys)
      × (signer c (k.report s) is_utf8 fuel keys dir ≡ ok (some by))
      × (text_eq (c.key_bytes by) (c.key_bytes key) ≡ true)

  owner_allows-Allows :
      (s : S) (app_id dir : Text) (owner : Option (Owner Key)) (done : Unit {0})
      → owner_allows k others c owners a is_utf8 fuel key_dirs from_utf8 from_toml s app_id dir
          owner
        ≡ ok done
      → Allows s dir owner
  unfolding owner_allows
  owner_allows-Allows s app_id dir none done h = cc
  owner_allows-Allows s app_id dir (some Owner.development) done h = tt
  owner_allows-Allows s app_id dir (some (Owner.verified key)) done h =
      let (keys, loaded, later) = bind-eq-ok (trusting (load c (k.report s) key_dirs)) _ h in
      let (found, signed, still) =
        bind-eq-ok (inspecting (signer c (k.report s) is_utf8 fuel keys dir)) _ later in
      let (by, is_by, same) = still_signed-eq-ok c app_id key found done still in
      (
        keys,
        by,
        trusting-eq-ok _ keys loaded,
        inspecting-eq-ok _ (some by) (rw is_by at signed),
        same,
      )

  -- `previous` is kept for rollback, is not the active revision, and its owner stands for it.
  abbrev pub Target : S → Text → Text → Text → Text → Type 0
  Target s data_home store id previous =
      (current : Text) × (d : Text) × (owner : Option (Owner Key)) × (active (k.report s) store id
        ≡ ok (some (revision current d)))
      × (previous_revision k s store id ≡ some previous)
      × (text_eq previous current ≡ false)
      × (read_owner c owners s (owner_record_path data_home id) ≡ ok owner)
      × Allows s (join (revisions_of store id) previous) owner

  pub rollback_target-Target :
      (s : S) (data_home store id previous : Text)
      → rollback_target k others c owners a is_utf8 fuel key_dirs from_utf8 from_toml s data_home
          store id
        ≡ ok previous
      → Target s data_home store id previous
  unfolding rollback_target allowed
  rollback_target-Target s data_home store id previous h =
      let (found, is_found, h1) = bind-eq-ok (in_store (active (k.report s) store id)) _ h in
      let (current, is_current, h2) = bind-eq-ok (current_revision id found) _ h1 in
      let (p, is_earlier, h3) =
        bind-eq-ok (earlier_revision id current (previous_revision k s store id)) _ h2 in
      let (owner, is_owner, h4) =
        bind-eq-ok (trusting (read_owner c owners s (owner_record_path data_home id))) _ h3 in
      let (done, allows, same) =
        bind-eq-ok
          (owner_allows k others c owners a is_utf8 fuel key_dirs from_utf8 from_toml s id
            (join (revisions_of store id) p) owner)
          _ h4 in
      let (d, shape) = current_revision-eq-ok id found current is_current in
      let is_p = ok-injective same in
      let (kept, other) = earlier_revision-eq-ok id current _ p is_earlier in
      (
        current,
        d,
        owner,
        rw shape at (in_store-eq-ok _ found is_found),
        rw is_p at kept,
        rw is_p at other,
        trusting-eq-ok _ owner is_owner,
        rw is_p at (owner_allows-Allows s id (join (revisions_of store id) p) owner done allows),
      )
