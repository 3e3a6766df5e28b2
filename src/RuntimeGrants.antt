-- ===== src/RuntimeGrants.antt =====
-- crates/weft-runtime/src/grants.rs: what the runtime enforces. `parse::<Ipv4Addr>` accepts the
-- dotted-decimal forms, as `is_ipv4` of the capability parser does.
pub mod Fetch
pub mod Arguments
pub mod Addresses
mod Examples
use weft_os.Base.{
  ℕ, Bool, true, false, ◌&&◌, ◌||◌, not, List, [], ◌∷◌, ◌++◌, Option, none, some, Text, codes,
  text_eq, any, is_empty, split, starts_with, drop, Result, ok, err, ◌>>=◌, ◌==◌, if◌then◌else◌,
}
use weft_os.Capability.{
  Access, read, read_write, FetchScope, any_host, host, Capability, app_data, documents, fetch,
  notifications, clipboard_read, clipboard_write, gpu_compute, gpu_render, UnknownCapability,
  unknown_capability, from_str,
}
use weft_os.Capability.Host.{is_ipv4}

pub record Grants : Type 0 where
  pub fetch_scopes : List FetchScope
  pub notify : Bool
  pub read_clipboard : Bool
  pub write_clipboard : Bool

-- `Grants::default()`
abbrev pub no_grants : Grants
no_grants = record {
  fetch_scopes = [];
  notify = false;
  read_clipboard = false;
  write_clipboard = false;
}

pub data GrantError : Type 0 where
  unknown : Text → GrantError
  not_a_grant : Capability → GrantError
  not_granted : Text → GrantError

-- the `match` of `add`
add_capability : Grants → Capability → Result GrantError Grants
add_capability g (fetch scope) = ok (record g { fetch_scopes = g.fetch_scopes ++ scope ∷ [] })
add_capability g notifications = ok (record g { notify = true })
add_capability g clipboard_read = ok (record g { read_clipboard = true })
add_capability g clipboard_write = ok (record g { write_clipboard = true })
add_capability g other = err (not_a_grant other)

parsed : Result UnknownCapability Capability → Result GrantError Capability
parsed (ok c) = ok c
parsed (err (unknown_capability s)) = err (unknown s)

unfoldable pub add : Grants → Text → Result GrantError Grants
unfolding add_capability parsed
add g spec = parsed (from_str spec) >>= λ c. add_capability g c

-- the `--grant` arguments in order, from no grants
unfoldable pub add_all : Grants → List Text → Result GrantError Grants
add_all g [] = ok g
add_all g (spec ∷ specs) = add g spec >>= λ g'. add_all g' specs

unfoldable pub granted : Bool → Text → Result GrantError (Unit {0})
granted present capability = if present then ok tt else err (not_granted capability)

unfoldable pub may_notify : Grants → Result GrantError (Unit {0})
unfolding granted
may_notify g = granted g.notify (codes "sys:notifications")

unfoldable pub may_read_clipboard : Grants → Result GrantError (Unit {0})
unfolding granted
may_read_clipboard g = granted g.read_clipboard (codes "sys:clipboard:read")

unfoldable pub may_write_clipboard : Grants → Result GrantError (Unit {0})
unfolding granted
may_write_clipboard g = granted g.write_clipboard (codes "sys:clipboard:write")

unfoldable pub fetch_any : Grants → Result GrantError (Unit {0})
unfolding granted
fetch_any g = granted (not (is_empty g.fetch_scopes)) (codes "net:fetch")

pub data Reach : Type 0 where
  public declared : Reach

-- the two closures over the scopes in `fetch_host`
abbrev pub names : Text → FetchScope → Bool
names h any_host = false
names h (host granted_host) = text_eq granted_host h

abbrev pub covers : Text → FetchScope → Bool
covers h any_host = true
covers h (host granted_host) = text_eq granted_host h

unfoldable pub fetch_host : Grants → Text → Result GrantError Reach
fetch_host g h =
    if is_empty g.fetch_scopes
    then err (not_granted (codes "net:fetch"))
    else if is_ipv4 (split b'.' h) && any (names h) g.fetch_scopes
    then ok declared
    else if any (covers h) g.fetch_scopes
    then ok public
    else err (not_granted (codes "net:fetch:" ++ h))

-- `rsplit_once("::")`: at the last occurrence
starts_colons : Text → Bool
starts_colons (a ∷ b ∷ s) = a == b':' && b == b':'
starts_colons s = false

pub rsplit_once : Text → Option (Text × Text)
unfolding starts_colons
rsplit_once [] = none
rsplit_once (a ∷ s) = elim (rsplit_once s) [
  | some (left, right) ↦ some (a ∷ left, right)
  | none ↦ if starts_colons (a ∷ s) then some ([], drop 2 (a ∷ s)) else none
]

pub data PreopenError : Type 0 where
  shape : PreopenError
  bad_mode : Text → PreopenError
  bad_paths : PreopenError

pub record Preopen : Type 0 where
  pub host_path : Text
  pub guest : Text
  pub access : Access

or_shape : Option (Text × Text) → Result PreopenError (Text × Text)
or_shape none = err shape
or_shape (some p) = ok p

pub access_of : Text → Result PreopenError Access
access_of mode =
    if text_eq mode (codes "ro")
    then ok read
    else if text_eq mode (codes "rw")
    then ok read_write
    else err (bad_mode mode)

unfoldable pub parse_preopen : Text → Result PreopenError Preopen
unfolding or_shape access_of rsplit_once
parse_preopen spec = or_shape (rsplit_once spec) >>= λ (rest, mode).
    or_shape (rsplit_once rest) >>= λ (host_path, guest). access_of mode >>= λ access.
    if not (is_empty host_path) && starts_with b'/' guest
    then ok (record { host_path = host_path; guest = guest; access = access })
    else err bad_paths
