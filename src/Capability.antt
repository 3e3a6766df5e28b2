-- ===== src/Capability.antt =====
-- crates/weft-ipc-types/src/capability.rs: the capability vocabulary, its parser and its printer.
-- `parse::<Capability>` is `from_str`, `to_string` is `to_string`.
pub mod Host
pub mod RoundTrip
mod Examples
use weft_os.Base.{
  ◌≡◌, Bool, true, ◌++◌, Option, none, some, Text, codes, text_eq, strip_prefix, Result, ok, err,
  if◌then◌else◌,
}
use Host.{is_host_name}

pub data Access : Type 0 where
  read read_write : Access

pub data FetchScope : Type 0 where
  any_host : FetchScope
  host : Text → FetchScope

pub data Capability : Type 0 where
  app_data documents : Access → Capability
  fetch : FetchScope → Capability
  notifications clipboard_read clipboard_write gpu_compute gpu_render : Capability

pub data UnknownCapability : Type 0 where
  unknown_capability : Text → UnknownCapability

abbrev pub fetch_prefix : Text
fetch_prefix = codes "net:fetch:"

-- the inner `match s.strip_prefix("net:fetch:")`
fetch_host_of : Text → Option Text → Result UnknownCapability Capability
fetch_host_of s none = err (unknown_capability s)
fetch_host_of s (some h) =
    if is_host_name h then ok (fetch (host h)) else err (unknown_capability s)

unfoldable pub from_str : Text → Result UnknownCapability Capability
unfolding fetch_host_of
from_str s =
    if text_eq s (codes "fs:read:app-data")
    then ok (app_data read)
    else if text_eq s (codes "fs:rw:app-data")
    then ok (app_data read_write)
    else if text_eq s (codes "fs:read:xdg-documents")
    then ok (documents read)
    else if text_eq s (codes "fs:rw:xdg-documents")
    then ok (documents read_write)
    else if text_eq s (codes "net:fetch:*")
    then ok (fetch any_host)
    else if text_eq s (codes "sys:notifications")
    then ok notifications
    else if text_eq s (codes "sys:clipboard:read")
    then ok clipboard_read
    else if text_eq s (codes "sys:clipboard:write")
    then ok clipboard_write
    else if text_eq s (codes "hw:gpu:compute")
    then ok gpu_compute
    else if text_eq s (codes "hw:gpu:render")
    then ok gpu_render
    else fetch_host_of s (strip_prefix fetch_prefix s)

-- the closure `mode` of `Display`
mode : Access → Text
mode read = codes "read"
mode read_write = codes "rw"

unfoldable pub to_string : Capability → Text
unfolding mode
to_string (app_data access) = codes "fs:" ++ (mode access ++ codes ":app-data")
to_string (documents access) = codes "fs:" ++ (mode access ++ codes ":xdg-documents")
to_string (fetch any_host) = codes "net:fetch:*"
to_string (fetch (host h)) = fetch_prefix ++ h
to_string notifications = codes "sys:notifications"
to_string clipboard_read = codes "sys:clipboard:read"
to_string clipboard_write = codes "sys:clipboard:write"
to_string gpu_compute = codes "hw:gpu:compute"
to_string gpu_render = codes "hw:gpu:render"

-- The values that the parser can return: a host is in its canonical form.
abbrev pub IsCanonical : Capability → Type 0
IsCanonical (fetch (host h)) = is_host_name h ≡ true
IsCanonical _ = Unit
