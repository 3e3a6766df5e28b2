-- ===== src/Pack/Admit.antt =====
-- `admit`: whom a staged package belongs to, and the record of it.
pub mod Owned
use weft_os.Base.{
  ℕ, Bool, true, false, List, [], ◌∷◌, ◌++◌, Option, none, some, Text, codes, text_eq, Result, ok,
  err, ◌>>=◌, if◌then◌else◌,
}
use weft_os.Base.Disk.{Disk}
use weft_os.Package.{IoKind, FileSystem, existing_app_data}
use weft_os.Trust.{Crypto, TrustError}
use weft_os.Trust.Inventory.{Failure}
use weft_os.Trust.Keys.{load, signer}
use weft_os.Trust.Owners.{Owner, OwnerFiles, owner_name, owner_record_path, read_owner, write_owner}
use weft_os.Pack.{PackError, refused, trust_failed, inventory_failed, inspect_failed, panicked}
use weft_os.Pack.Place.{Admission}

pub data InstallMode : Type 0 where
  verified development : InstallMode

-- `join(", ")`
separated : List Text → Text
separated [] = []
separated (t ∷ []) = t
separated (t ∷ u ∷ ts) = t ++ (codes ", " ++ separated (u ∷ ts))

unfoldable pub trusting {ℓ} : {A : Type ℓ} → Result TrustError A → Result PackError A
trusting (err e) = err (trust_failed e)
trusting (ok a) = ok a

unfoldable pub inspecting {ℓ} : {A : Type ℓ} → Result Failure A → Result PackError A
inspecting (err e) = err (inventory_failed e)
inspecting (ok a) = ok a

module _ {Key Signature : Type 0} (c : Crypto Key Signature) where
  -- `==` on owners
  unfoldable pub same_owner : Owner Key → Owner Key → Bool
  same_owner (Owner.verified a) (Owner.verified b) = text_eq (c.key_bytes a) (c.key_bytes b)
  same_owner Owner.development Owner.development = true
  same_owner _ _ = false

  module _ (is_utf8 : Text → Bool) (fuel : ℕ) (fs : Disk) (key_dirs : List Text) where
    signed_by : Text → Option Key → Result PackError (Owner Key)
    unfolding separated
    signed_by app_id (some key) = ok (Owner.verified key)
    signed_by app_id none = err (
        refused (
          app_id
          ++ (codes " is not signed by a trusted key (trusted keys are read from "
              ++ (separated key_dirs
                  ++ codes "); install it with --dev to use it as development content"))))

    -- the `match` on the mode; `key_dirs` is `TrustStore::directories()`
    unfoldable pub owner_for : InstallMode → Text → Text → Result PackError (Owner Key)
    unfolding signed_by trusting inspecting
    owner_for development staged app_id = ok Owner.development
    owner_for verified staged app_id =
        trusting (load c fs key_dirs)
        >>= (λ keys. inspecting (signer c fs is_utf8 fuel keys staged) >>= signed_by app_id)

module _ {ℓ} {S File : Type ℓ} {Key Signature : Type 0} (c : Crypto Key Signature)
    (owners : OwnerFiles S File) (fs : FileSystem S) where
  -- `write_owner(&record, owner)?`
  recorded :
      Option (S × Result TrustError (Unit {0}))
      → S
      → Text
      → Owner Key
      → S × Result PackError (Admission Key)
  recorded none s path owner = (s, err panicked)
  recorded (some (t, err e)) s path owner = (t, err (trust_failed e))
  recorded (some (t, ok done)) s path owner =
      (t, ok (record { owner = owner; created_record = some path }))

  record_owner : S → Text → Text → Owner Key → S × Result PackError (Admission Key)
  unfolding recorded
  record_owner s pid path owner = recorded (write_owner c owners s pid path owner) s path owner

  -- app data found, or not, with no recorded owner
  claimed_by :
      Result IoKind (Option Text)
      → S
      → Text
      → Text
      → Text
      → Owner Key
      → S × Result PackError (Admission Key)
  unfolding record_owner
  claimed_by (err e) s pid path app_id owner =
      (s, err (inspect_failed (codes "inspect the app data of " ++ app_id) e))
  claimed_by (ok (some found)) s pid path app_id owner = (
    s,
    err (
        refused (
          found
          ++ (codes " holds app data for "
              ++ (app_id
                  ++ (codes " with no recorded owner; install with --claim-data to give it to "
                      ++ (owner_name c owner ++ codes ", or move it aside")))))),
  )
  claimed_by (ok none) s pid path app_id owner = record_owner s pid path owner

  -- no record, and no claim on earlier data
  unclaimed :
      Option Text → S → Text → Text → Text → Text → Owner Key → S × Result PackError (Admission Key)
  unfolding claimed_by
  unclaimed none s pid data_home path app_id owner = (
    s,
    err (
        refused (codes "HOME is not set to an absolute path, so earlier app data cannot be found")),
  )
  unclaimed (some home) s pid data_home path app_id owner =
      claimed_by (existing_app_data fs s data_home home app_id) s pid path app_id owner

  -- the `match` on the record
  admit_owner :
      Option (Owner Key)
      → S
      → Text
      → Option Text
      → Text
      → Text
      → Bool
      → Owner Key
      → S × Result PackError (Admission Key)
  unfolding unclaimed record_owner
  admit_owner (some existing) s pid home data_home app_id claim_data owner =
      if same_owner c existing owner
      then (s, ok (record { owner = owner; created_record = none }))
      else (
        s,
        err (
            refused (
              app_id
              ++ (codes " belongs to "
                  ++ (owner_name c existing
                      ++ (codes "; this package is "
                          ++ (owner_name c owner
                              ++ codes
                                  ". Its app data stays with its owner, so another publisher or a development build cannot take the ID over")))))),
      )
  admit_owner none s pid home data_home app_id claim_data owner =
      let path = owner_record_path data_home app_id in
      if claim_data
      then record_owner s pid path owner
      else unclaimed home s pid data_home path app_id owner

  admit_read :
      Result TrustError (Option (Owner Key))
      → S
      → Text
      → Option Text
      → Text
      → Text
      → Bool
      → Owner Key
      → S × Result PackError (Admission Key)
  unfolding admit_owner
  admit_read (err e) s pid home data_home app_id claim_data owner = (s, err (trust_failed e))
  admit_read (ok existing) s pid home data_home app_id claim_data owner =
      admit_owner existing s pid home data_home app_id claim_data owner

  module _ (disk : S → Disk) (is_utf8 : Text → Bool) (fuel : ℕ) (key_dirs : List Text)
      (home : Option Text) (pid : Text) where
    admit_for :
        Result PackError (Owner Key) → S → Text → Text → Bool → S × Result PackError (Admission Key)
    unfolding admit_read
    admit_for (err e) s app_id data_home claim_data = (s, err e)
    admit_for (ok owner) s app_id data_home claim_data =
        admit_read (read_owner c owners s (owner_record_path data_home app_id)) s pid home data_home
          app_id claim_data owner

    unfoldable pub admit :
        S → Text → Text → InstallMode → Text → Bool → S × Result PackError (Admission Key)
    unfolding admit_for
    admit s staged app_id mode data_home claim_data =
        admit_for (owner_for c is_utf8 fuel (disk s) key_dirs mode staged app_id) s app_id data_home
          claim_data
