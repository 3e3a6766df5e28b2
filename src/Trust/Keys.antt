-- ===== src/Trust/Keys.antt =====
-- The keys that a host trusts, and which of them signed a package.
pub mod Signer
use weft_os.Base.{
  ◌==◌, ◌||◌, ◌&&◌, ℕ, zero, suc, Bool, true, false, not, List, [], ◌∷◌, Option, none, some, Text,
  codes, ◌++◌, text_eq, text_less, filter, split, starts_with, Result, ok, err, ◌>>=◌,
  if◌then◌else◌,
}
use weft_os.Base.Paths.{join}
use weft_os.Base.Disk.{Disk, ErrorKind, not_found}
use weft_os.Trust.{Crypto, TrustError, trust_io, io_at, from_file, read_signature, signer_of}
use weft_os.Trust.Inventory.{Failure, failing, content_digest}

-- `Path::is_absolute`, as a filter
absolute : Option Text → Option Text
absolute none = none
absolute (some dir) = if starts_with b'/' dir then some dir else none

under_home : Option Text → Option Text
unfolding absolute
under_home home = elim (absolute home) [ none ↦ none | some h ↦ some (join h (codes ".config")) ]

config_dir : Option Text → Option Text → Option Text
unfolding absolute under_home
config_dir xdg home = elim (absolute xdg) [ none ↦ under_home home | some dir ↦ some dir ]

user_dirs : Option Text → List Text
user_dirs none = []
user_dirs (some dir) = join dir (codes "weft/trusted-keys") ∷ []

-- `TrustStore::directories`; `var` is `std::env::var_os`
unfoldable pub directories : (Text → Option Text) → List Text
unfolding config_dir user_dirs
directories var = elim (var (codes "WEFT_TRUSTED_KEYS")) [
  | some dir ↦ dir ∷ []
  | none ↦
      user_dirs (config_dir (var (codes "XDG_CONFIG_HOME")) (var (codes "HOME")))
      ++ codes "/etc/weft/trusted-keys" ∷ []
]

-- `Path::extension` of a name, from its pieces between dots: what follows the last one
extension_of : List Text → Option Text
extension_of [] = none
extension_of (p ∷ []) = none
extension_of ([] ∷ q ∷ []) = none
extension_of ((b ∷ p) ∷ q ∷ []) = some q
extension_of (p ∷ q ∷ r ∷ ps) = elim (extension_of (q ∷ r ∷ ps)) [ none ↦ some r | some e ↦ some e ]

unfoldable pub is_pub : Text → Bool
unfolding extension_of
is_pub name = elim (extension_of (split b'.' name)) [
  | none ↦ false
  | some e ↦ text_eq e (codes "pub")
]

-- The files of one directory differ in their names only, so that their paths are in the order of
-- the names.
insert_name : Text → List Text → List Text
insert_name n [] = n ∷ []
insert_name n (m ∷ ms) =
    let rest = insert_name n ms in if text_less m n then m ∷ rest else n ∷ m ∷ ms

unfoldable pub sorted_names : List Text → List Text
unfolding insert_name
sorted_names [] = []
sorted_names (n ∷ ns) = insert_name n (sorted_names ns)

-- the `collect` of the entries' paths
all_names : Text → List (Result ErrorKind Text) → Result TrustError (List Text)
all_names dir [] = ok []
all_names dir (err e ∷ entries) = err (trust_io dir e)
all_names dir (ok name ∷ entries) = all_names dir entries >>= (λ names. ok (name ∷ names))

module _ {Key Signature : Type 0} (c : Crypto Key Signature) (fs : Disk) where
  -- the loop over the files
  file_keys : Text → List Text → List Key → Result TrustError (List Key)
  file_keys dir [] keys = ok keys
  file_keys dir (name ∷ names) keys =
      from_file c fs (join dir name) >>= (λ key. file_keys dir names (keys ++ key ∷ []))

  dir_keys :
      Text
      → List Key
      → Result ErrorKind (List (Result ErrorKind Text))
      → Result TrustError (List Key)
  unfolding all_names file_keys
  dir_keys dir keys (err not_found) = ok keys
  dir_keys dir keys (err e) = err (trust_io dir e)
  dir_keys dir keys (ok entries) =
      all_names dir entries >>= (λ names. file_keys dir (filter is_pub (sorted_names names)) keys)

  -- the loop over the directories
  load_from : List Text → List Key → Result TrustError (List Key)
  unfolding dir_keys
  load_from [] keys = ok keys
  load_from (dir ∷ dirs) keys = dir_keys dir keys (fs.read_dir dir) >>= load_from dirs

  -- `TrustStore::load`
  unfoldable pub load : List Text → Result TrustError (List Key)
  unfolding load_from
  load dirs = load_from dirs []

  -- `TrustStore::signer`
  signer_with : (Text → Bool) → ℕ → List Key → Text → Option Signature → Result Failure (Option Key)
  signer_with is_utf8 fuel keys package_root none = ok none
  signer_with is_utf8 fuel keys package_root (some signature) =
      content_digest c is_utf8 fs fuel package_root
      >>= (λ digest. ok (signer_of c keys digest signature))

  unfoldable pub signer : (Text → Bool) → ℕ → List Key → Text → Result Failure (Option Key)
  unfolding signer_with failing
  signer is_utf8 fuel keys package_root =
      failing (read_signature c fs package_root) >>= signer_with is_utf8 fuel keys package_root
