-- ===== src/SessionGrants.antt =====
-- crates/weft-appd/src/grants.rs: what a session is granted, derived from the capabilities that
-- its package declares. `host_dirs` is the result of the closure that reads the environment.
pub mod Prepare
pub mod Preopen
pub mod Plan
pub mod Imports
mod Examples
use weft_os.Base.{
  ℕ, Bool, true, false, ◌&&◌, ◌||◌, not, List, [], ◌∷◌, ◌++◌, Option, none, some, Text, codes,
  text_eq, any, find, is_empty, if◌then◌else◌, Result, ok, err, ◌>>=◌,
}
use weft_os.Capability.{
  Access, read, read_write, FetchScope, any_host, host, Capability, app_data, documents, fetch,
  notifications, clipboard_read, clipboard_write, gpu_compute, gpu_render, UnknownCapability,
  unknown_capability, from_str, to_string,
}
use weft_os.Package.{
  IoKind, FileSystem, Migration, MigrationError, conflict, cross_device, not_a_plain_directory, io,
  app_data_dir, legacy_app_data_dir, migrate_app_data, make_private,
}

pub record GrantedDir : Type 0 where
  pub host_path : Text
  pub guest : Text
  pub access : Access

preopen_mode : Access → Text
preopen_mode read = codes "ro"
preopen_mode read_write = codes "rw"

unfoldable pub preopen_arg : GrantedDir → Text
unfolding preopen_mode
preopen_arg dir =
    dir.host_path ++ (codes "::" ++ (dir.guest ++ (codes "::" ++ preopen_mode dir.access)))

pub record SessionGrants : Type 0 where
  pub dirs : List GrantedDir
  pub imports : List Capability

-- `SessionGrants::default()`
abbrev pub nothing_granted : SessionGrants
nothing_granted = record { dirs = []; imports = [] }

pub record Refusal : Type 0 where
  pub code : ℕ
  pub message : Text

abbrev pub refuse : ℕ → Text → Refusal
refuse code message = record { code = code; message = message }

pub record HostDirs : Type 0 where
  pub data_home : Text
  pub home : Text
  pub documents_path : Option Text

-- Rust's derived `PartialEq`
access_eq : Access → Access → Bool
access_eq read read = true
access_eq read_write read_write = true
access_eq _ _ = false

scope_eq : FetchScope → FetchScope → Bool
scope_eq any_host any_host = true
scope_eq (host h) (host k) = text_eq h k
scope_eq _ _ = false

unfoldable pub capability_eq : Capability → Capability → Bool
unfolding access_eq scope_eq
capability_eq (app_data a) (app_data b) = access_eq a b
capability_eq (documents a) (documents b) = access_eq a b
capability_eq (fetch s) (fetch t) = scope_eq s t
capability_eq notifications notifications = true
capability_eq clipboard_read clipboard_read = true
capability_eq clipboard_write clipboard_write = true
capability_eq gpu_compute gpu_compute = true
capability_eq gpu_render gpu_render = true
capability_eq _ _ = false

-- the `map_err` and the `matches!` of `validate`
abbrev unknown_message : Text → Text
unknown_message s = codes "unknown capability '" ++ (s ++ codes "'")

abbrev pub unsupported : Capability → Refusal
unsupported c = refuse 403 (to_string c ++ codes " is not supported by this host")

supported : Result UnknownCapability Capability → Result Refusal Capability
supported (err (unknown_capability s)) = err (refuse 403 (unknown_message s))
supported (ok gpu_compute) = err (unsupported gpu_compute)
supported (ok gpu_render) = err (unsupported gpu_render)
supported (ok c) = ok c

unfoldable pub validate : List Text → Result Refusal (List Capability)
unfolding supported
validate [] = ok []
validate (text ∷ declared) =
    let rest = validate declared in supported (from_str text) >>= λ c. rest >>= λ cs. ok (c ∷ cs)

-- an existing grant of the same guest directory is widened, never narrowed
widen : Access → GrantedDir → GrantedDir
widen read dir = dir
widen read_write dir = record dir { access = read_write }

add_dir : GrantedDir → List GrantedDir → List GrantedDir
add_dir dir [] = dir ∷ []
add_dir dir (d ∷ ds) =
    let rest = add_dir dir ds in
    if text_eq d.guest dir.guest then widen dir.access d ∷ ds else d ∷ rest

-- `path.contains("::")`
contains_colons : Text → Bool
contains_colons (a ∷ b ∷ s) = (text_eq (a ∷ b ∷ []) (codes "::")) || contains_colons (b ∷ s)
contains_colons _ = false

-- the arm `_`
add_import : SessionGrants → Capability → SessionGrants
add_import grants c =
    if any (λ d. capability_eq d c) grants.imports
    then grants
    else record grants { imports = grants.imports ++ c ∷ [] }

no_documents : Capability → Refusal
no_documents c =
    refuse 403 (to_string c ++ codes " requested, but no documents directory is configured")

needs_dir : Capability → Bool
needs_dir (app_data access) = true
needs_dir (documents access) = true
needs_dir _ = false

host_for : List Capability → Result Refusal HostDirs → Result Refusal (Option HostDirs)
unfolding needs_dir
host_for cs host_dirs = if any needs_dir cs then (host_dirs >>= λ h. ok (some h)) else ok none

module _ (is_utf8 : Text → Bool) where
  unfoldable pub grant_dir : SessionGrants → Text → Text → Access → Result Refusal SessionGrants
  unfolding add_dir widen contains_colons
  grant_dir grants host_path guest access =
      if not (is_utf8 host_path) || contains_colons host_path
      then err (refuse 403 (host_path ++ codes " cannot be granted to a session"))
      else ok (record grants {
        dirs =
            add_dir (record { host_path = host_path; guest = guest; access = access }) grants.dirs;
      })

  grant_documents : SessionGrants → Access → Option Text → Result Refusal SessionGrants
  unfolding no_documents
  grant_documents grants access none = err (no_documents (documents access))
  grant_documents grants access (some dir) = grant_dir grants dir (codes "/xdg/documents") access

  -- the `match (&capability, &host)`
  grant_one : Text → Option HostDirs → SessionGrants → Capability → Result Refusal SessionGrants
  unfolding grant_documents add_import
  grant_one app_id (some h) grants (app_data access) =
      grant_dir grants (app_data_dir h.data_home app_id) (codes "/data") access
  grant_one app_id (some h) grants (documents access) =
      grant_documents grants access h.documents_path
  grant_one app_id h grants c = ok (add_import grants c)

  pub grant_all :
      Text → Option HostDirs → SessionGrants → List Capability → Result Refusal SessionGrants
  grant_all app_id h grants [] = ok grants
  grant_all app_id h grants (c ∷ cs) =
      grant_one app_id h grants c >>= λ grants'. grant_all app_id h grants' cs

  -- `derive` up to the preparation of the application's data
  unfoldable pub plan :
      Text → List Text → Result Refusal HostDirs → Result Refusal (SessionGrants × Option HostDirs)
  unfolding host_for grant_one grant_all
  plan app_id declared host_dirs = validate declared >>= λ cs. host_for cs host_dirs >>= λ h.
      grant_all app_id h nothing_granted cs >>= λ grants. ok (grants, h)
