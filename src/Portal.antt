-- ===== src/Portal.antt =====
-- crates/weft-file-portal/src/main.rs: the requests of a session and the granted directory that
-- each is served from. Paths are texts, since they arrive in UTF-8.
pub mod Kernel
pub mod Locate
pub mod Files
pub mod Serve
pub mod Memory
mod Examples
use weft_os.Base.{
  ℕ, ◌*◌, ◌/◌, ◌+◌, Bool, true, false, ◌&&◌, ◌||◌, not, List, [], ◌∷◌, ◌++◌, Option, none, some,
  Text, codes, text_eq, all, split, starts_with, drop, Result, ok, err, if◌then◌else◌,
}
use weft_os.Base.Paths.{Component, components, strip_components, normal_names, is_plain}

abbrev pub max_file : ℕ
max_file = 16 * 1024 * 1024

abbrev pub max_line : ℕ
max_line = max_file / 3 * 4 + 64 * 1024

abbrev pub max_entries : ℕ
max_entries = 10000

abbrev pub temporary_prefix : Text
temporary_prefix = codes ".weft-portal-"

pub data Request : Type 0 where
  read_file : Text → Request
  write_file : Text → Text → Request
  list_dir : Text → Request

pub data Response : Type 0 where
  done : Response
  ok_data : Text → Response
  ok_entries : List Text → Response
  failed : Text → Response

pub record Allowed : Type 0 where
  pub root : Text
  pub writable : Bool

-- the loop over the arguments: a flag without a value is dropped
unfoldable pub parse_allowed : List Text → List Allowed
parse_allowed [] = []
parse_allowed (flag ∷ []) = []
parse_allowed (flag ∷ path ∷ args) =
    let after_value = parse_allowed args in
    let after_flag = parse_allowed (path ∷ args) in
    if text_eq flag (codes "--allow")
    then record { root = path; writable = true } ∷ after_value
    else if text_eq flag (codes "--allow-read")
    then record { root = path; writable = false } ∷ after_value
    else after_flag

-- the `direct` test
unfoldable pub is_direct : Text → Bool
is_direct text = starts_with b'/' text && all is_plain (split b'/' (drop 1 text))

inside : Option (List Component) → Option (List Text)
inside none = none
inside (some rest) = normal_names rest

-- the names of the components below the root
unfoldable pub relative_to : Text → Text → Option (List Text)
unfolding inside is_direct
relative_to path root =
    if is_direct path then inside (strip_components (components root) (components path)) else none

pub record Root {ℓ} (Fd : Type ℓ) : Type ℓ where
  pub path : Text
  pub dir : Fd
  pub writable : Bool

abbrev pub denied : Text → Response
denied path = failed (codes "access denied: " ++ path)

module _ {ℓ} {Fd : Type ℓ} where
  -- `find_map` on one root that passed the filter
  found : Root Fd → Option (List Text) → Option (Root Fd × List Text) → Option (Root Fd × List Text)
  found root none rest = rest
  found root (some names) rest = some (root, names)

  unfoldable pub find_root : List (Root Fd) → Text → Bool → Option (Root Fd × List Text)
  unfolding found
  find_root [] path write = none
  find_root (root ∷ roots) path write =
      let rest = find_root roots path write in
      if root.writable || not write then found root (relative_to path root.path) rest else rest

  or_denied : Text → Option (Root Fd × List Text) → Result Response (Root Fd × List Text)
  or_denied path none = err (denied path)
  or_denied path (some place) = ok place

  unfoldable pub locate : List (Root Fd) → Text → Bool → Result Response (Root Fd × List Text)
  unfolding or_denied
  locate roots path write = or_denied path (find_root roots path write)
