-- ===== src/Pack/Admit/Owned.antt =====
-- About `admit` and the recorded owner.
use weft_os.Base.{◌≡◌, ◌⊎◌, Bool, true, Option, none, some, Text, ok}
use weft_os.Base.Disk.{Disk}
use weft_os.Package.{FileSystem, existing_app_data}
use weft_os.Trust.{Crypto}
use weft_os.Trust.Owners.{Owner, OwnerFiles, owner_record_path, read_owner, write_owner}
use weft_os.Pack.Place.{Admission}
use weft_os.Pack.Admit.{same_owner}

module _ {ℓ} {S File : Type ℓ} {Key Signature : Type 0} (c : Crypto Key Signature)
    (owners : OwnerFiles S File) (fs : FileSystem S) (pid : Text) where
  -- No app data stands at either place, or the installation claims it.
  abbrev pub NoData : S → Option Text → Text → Text → Bool → Type 0
  NoData s home data_home app_id claim_data =
      (claim_data ≡ true)
      ⊎ ((h : Text) × (home ≡ some h) × (existing_app_data fs s data_home h app_id ≡ ok none))

  -- the outcome of a recording that succeeded
  abbrev Recording : S → S → Text → Owner Key → Admission Key → Type ℓ
  Recording s s' path owner adm =
      (adm.owner ≡ owner)
      × (adm.created_record ≡ some path)
      × (write_owner c owners s pid path owner ≡ some (s', ok tt))

  -- What an admission rests on: the record, which names the same owner, or a new one.
  abbrev pub Owned : S → S → Text → Option Text → Text → Bool → Owner Key → Admission Key → Type ℓ
  Owned s s' app_id home data_home claim_data owner adm =
      let path = owner_record_path data_home app_id in
      ((existing : Owner Key) × (read_owner c owners s path ≡ ok (some existing))
        × (same_owner c existing owner ≡ true)
        × (adm.created_record ≡ none)
        × (s' ≡ s))
      ⊎ ((read_owner c owners s path ≡ ok none)
          × (adm.created_record ≡ some path)
          × (write_owner c owners s pid path owner ≡ some (s', ok tt))
          × NoData s home data_home app_id claim_data)
