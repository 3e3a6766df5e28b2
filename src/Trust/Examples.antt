-- ===== src/Trust/Examples.antt =====
-- A signed package, the key that signed it, and the record of its owner.
use weft_os.Base.{
  ◌≡◌, refl, ℕ, Bool, true, false, ◌||◌, [], ◌∷◌, ◌++◌, Option, none, some, Text, codes, text_eq,
  is_digit, all, if◌then◌else◌, Result, ok, err,
}
use weft_os.Base.Disk.{Disk, not_found, other_error, regular, folder}
use weft_os.Portal.Memory
use weft_os.Trust.{Crypto, TrustError, control_character, from_hex, read_signature, signer_of}
use weft_os.Trust.Inventory.{Failure, failed, inventory_text, content_digest}
use weft_os.Trust.Keys.{directories, is_pub, load, signer}
use weft_os.Trust.Owners.{verified, read_owner, write_owner, owner_text, owner_record_path}
use weft_os.Trust.Owners.Written.{Outcome}
use weft_os.Trust.Owners.Kept.{write_owner-Outcome}
use weft_os.Trust.Owners.RoundTrip.{read_owner-write_owner}
use weft_os.Trust.Memory.{key_a, key_b, toy, toy-CryptoLaws, toy-KeyLaws}
use weft_os.Trust.Memory.Records.{records, watch, records-Lawful}

-- `/p` holds `ui/a` and a signature by `key_a` over the digest, the byte 8; `/k` holds two keys.
abbrev disk : Disk
disk = record {
  symlink_metadata = λ p.
      if text_eq p (codes "/p/ui")
      then ok folder
      else if text_eq p (codes "/p/ui/a") || text_eq p (codes "/p/signature.sig")
      then ok regular
      else err not_found;
  read_link = λ p. err other_error;
  read = λ p.
      if text_eq p (codes "/p/ui/a")
      then ok (codes "hello")
      else if text_eq p (codes "/p/signature.sig")
      then ok (
          codes
            "61080000000000000000000000000000000000000000000000000000000000000000000000000000000000000000000000000000000000000000000000000000\n")
      else if text_eq p (codes "/k/a.pub")
      then ok (codes "6161616161616161616161616161616161616161616161616161616161616161\n")
      else err not_found;
  read_dir = λ p.
      if text_eq p (codes "/p")
      then ok (ok (codes "ui") ∷ ok (codes "signature.sig") ∷ [])
      else if text_eq p (codes "/p/ui")
      then ok (ok (codes "a") ∷ [])
      else if text_eq p (codes "/k")
      then ok (ok (codes "b.key") ∷ ok (codes "a.pub") ∷ [])
      else err not_found;
}

abbrev any_text : Text → Bool
any_text t = true

digest_of : content_digest toy any_text disk 3 (codes "/p") ≡ ok (8 ∷ [])
unfolding content_digest text_eq weft_os.Trust.Inventory.relative_to_root
    weft_os.Base.Paths.strip_components weft_os.Base.Paths.components weft_os.Base.starts_with
    weft_os.Base.split weft_os.Base.ends_with weft_os.Trust.Inventory.has_control toy inventory_text
    weft_os.Trust.Inventory.sorted_entries
digest_of = refl

load_keys : load toy disk (codes "/none" ∷ codes "/k" ∷ []) ≡ ok (key_a ∷ [])
unfolding load text_eq weft_os.Base.filter weft_os.Trust.Keys.sorted_names weft_os.Base.text_less
    is_pub weft_os.Base.split weft_os.Trust.from_file weft_os.Base.starts_with
    weft_os.Base.ends_with toy weft_os.Base.trim
load_keys = refl

signer_of_package : signer toy disk any_text 3 (key_b ∷ key_a ∷ []) (codes "/p") ≡ ok (some key_a)
unfolding signer read_signature text_eq weft_os.Base.starts_with weft_os.Base.ends_with toy
    weft_os.Base.trim content_digest weft_os.Trust.Inventory.relative_to_root
    weft_os.Base.Paths.strip_components weft_os.Base.Paths.components weft_os.Base.split
    weft_os.Trust.Inventory.has_control signer_of weft_os.Base.find inventory_text
    weft_os.Trust.Inventory.sorted_entries
signer_of_package = refl

directories_home :
    directories (λ v. if text_eq v (codes "HOME") then some (codes "/h") else none)
    ≡ codes "/h/.config/weft/trusted-keys" ∷ codes "/etc/weft/trusted-keys" ∷ []
unfolding directories text_eq weft_os.Base.starts_with weft_os.Base.ends_with
directories_home = refl

abbrev record_path : Text
record_path = codes "/d/weft/owners/com.example.notes"

abbrev no_files : Memory.Disk
no_files = record { names = []; bytes = λ f. [] }

abbrev recorded : Memory.Disk
recorded = elim (write_owner toy records no_files (codes "42") record_path (verified key_a)) [
  | none ↦ no_files
  | some r ↦ r.0
]

written :
    write_owner toy records no_files (codes "42") record_path (verified key_a)
    ≡ some (recorded, ok tt)
unfolding write_owner records Memory.find_name Memory.remove_name text_eq weft_os.Base.starts_with
    weft_os.Base.ends_with weft_os.Base.Paths.file_name weft_os.Base.Paths.components
    weft_os.Base.split
written = refl

owner_path : owner_record_path (codes "/d") (codes "com.example.notes") ≡ record_path
unfolding owner_record_path weft_os.Base.starts_with weft_os.Base.ends_with
owner_path = refl

write_owner-Outcome_example :
    Outcome watch {E = TrustError} record_path
      (owner_text toy (verified key_a))
      no_files
      recorded
      (ok tt)
unfolding all
write_owner-Outcome_example =
    write_owner-Outcome toy records watch records-Lawful no_files recorded (codes "42") record_path
      (verified key_a) (ok tt) refl written

read_back : records.read_to_string recorded record_path ≡ ok (owner_text toy (verified key_a))
unfolding records Memory.find_name write_owner Memory.remove_name text_eq weft_os.Base.starts_with
    weft_os.Base.ends_with weft_os.Base.Paths.file_name weft_os.Base.Paths.components
    weft_os.Base.split Memory.fresh
read_back = refl

read_owner-write_owner_example :
    read_owner toy records recorded record_path ≡ ok (some (verified key_a))
unfolding all
read_owner-write_owner_example =
    read_owner-write_owner toy toy-CryptoLaws toy-KeyLaws records watch records-Lawful no_files
      recorded (codes "42") record_path (owner_text toy (verified key_a)) (verified key_a) refl
      written read_back
