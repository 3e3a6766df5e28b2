-- ===== src/Trust.antt =====
-- crates/weft-ipc-types/src/trust.rs: publisher keys and signatures, the errors, and the keys that
-- a host trusts. The contents of a package are in the child `Inventory`, the owner of an
-- application ID in `Owners`. SHA-256, Ed25519 and hexadecimal text are an interface.
pub mod Inventory
pub mod Owners
pub mod Keys
pub mod Memory
mod Examples
use weft_os.Base.{
  ◌==◌, Bool, true, false, not, List, [], ◌∷◌, Option, none, some, Text, codes, ◌++◌, text_eq,
  text_less, trim, length, find, starts_with, ends_with, Result, ok, err, ◌>>=◌, if◌then◌else◌, ℕ,
}
use weft_os.Base.Paths.{join, file_name}
use weft_os.Base.Disk.{Disk, ErrorKind, not_found, FileType, regular, folder, link, special}

abbrev pub signature_file : Text
signature_file = codes "signature.sig"

pub data TrustError : Type 0 where
  trust_link trust_not_a_file non_utf8 control_character : Text → TrustError
  malformed : Text → Text → TrustError
  trust_io : Text → ErrorKind → TrustError

-- `Display`; `quoted` is the `Debug` of a path
unfoldable pub trust_error_text : (ErrorKind → Text) → (Text → Text) → TrustError → Text
trust_error_text shown quoted (trust_link p) = p ++ codes " is a symbolic link"
trust_error_text shown quoted (trust_not_a_file p) =
    p ++ codes " is not a regular file or directory"
trust_error_text shown quoted (non_utf8 p) = p ++ codes " is not a UTF-8 path"
trust_error_text shown quoted (control_character p) =
    quoted p ++ codes " has a control character in its name"
trust_error_text shown quoted (malformed p why) = p ++ (codes ": " ++ why)
trust_error_text shown quoted (trust_io p e) = p ++ (codes ": " ++ shown e)

-- `map_err(io(path))`
unfoldable pub io_at {ℓ} : {A : Type ℓ} → Text → Result ErrorKind A → Result TrustError A
io_at path (err e) = err (trust_io path e)
io_at path (ok a) = ok a

-- `Sha256::digest`, the functions of the crate `hex`, and `VerifyingKey` with `verify_strict`
pub record Crypto (Key Signature : Type 0) : Type 0 where
  pub sha256 : Text → Text
  pub hex_encode : Text → Text
  pub hex_decode : Text → Option Text
  pub key_from_bytes : Text → Option Key
  pub key_bytes : Key → Text
  pub verify_strict : Key → Text → Signature → Bool
  pub signature_from_bytes : Text → Signature

module _ {Key Signature : Type 0} (c : Crypto Key Signature) where
  -- Decoded bytes, as an array of the length `n`.
  sized : ℕ → Option Text → Text → Text → Result Text Text
  sized n none not_hex not_sized = err not_hex
  sized n (some bytes) not_hex not_sized = if length bytes == n then ok bytes else err not_sized

  known_key : Option Key → Result Text Key
  known_key none = err (codes "not a valid Ed25519 public key")
  known_key (some key) = ok key

  -- `PublisherKey::from_hex`
  unfoldable pub from_hex : Text → Result Text Key
  unfolding sized known_key
  from_hex text =
      sized 32 (c.hex_decode (trim text)) (codes "expected 64 hex digits")
        (codes "expected a 32-byte key")
      >>= (λ bytes. known_key (c.key_from_bytes bytes))

  malformed_at {ℓ} : {A : Type ℓ} → Text → Result Text A → Result TrustError A
  malformed_at path (err why) = err (malformed path why)
  malformed_at path (ok a) = ok a

  unfoldable pub from_file : Disk → Text → Result TrustError Key
  unfolding io_at malformed_at from_hex
  from_file fs path = io_at path (fs.read path) >>= (λ text. malformed_at path (from_hex text))

  -- `PublisherKey::to_hex`
  abbrev pub to_hex : Key → Text
  to_hex key = c.hex_encode (c.key_bytes key)

  abbrev pub signed : Key → Text → Signature → Bool
  signed key digest signature = c.verify_strict key digest signature

  signature_of : Text → Result Text Text → Result TrustError (Option Signature)
  signature_of path (err why) = err (malformed path why)
  signature_of path (ok bytes) = ok (some (c.signature_from_bytes bytes))

  signature_at : Disk → Text → Result ErrorKind FileType → Result TrustError (Option Signature)
  unfolding io_at sized signature_of
  signature_at fs path (err not_found) = ok none
  signature_at fs path (err e) = err (trust_io path e)
  signature_at fs path (ok regular) = io_at path (fs.read path) >>= (λ text. signature_of path (
      sized 64 (c.hex_decode (trim text)) (codes "expected 128 hex digits")
        (codes "expected 128 hex digits")))
  signature_at fs path (ok _) = err (trust_not_a_file path)

  unfoldable pub read_signature : Disk → Text → Result TrustError (Option Signature)
  unfolding signature_at
  read_signature fs package_root =
      let path = join package_root signature_file in signature_at fs path (fs.symlink_metadata path)

  -- `TrustStore::signer_of`
  unfoldable pub signer_of : List Key → Text → Signature → Option Key
  signer_of keys digest signature = find (λ k. signed k digest signature) keys
