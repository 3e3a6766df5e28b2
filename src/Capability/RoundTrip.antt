-- ===== src/Capability/RoundTrip.antt =====
-- The parser and the printer of crates/weft-ipc-types/src/capability.rs are inverse.
use weft_os.Base.{
  ◌≡◌, refl, ◌↔◌, inl, inr, true, false, Option, none, some, Text, codes, text_eq, text_eq→eq,
  strip_prefix, strip_prefix-append, strip_prefix-eq-some, ok, arith, Bool-cases, sym, subst,
}
use weft_os.Capability.Host.{is_host_name}
use weft_os.Capability.{
  read, read_write, any_host, host, Capability, app_data, documents, fetch, notifications,
  clipboard_read, clipboard_write, gpu_compute, gpu_render, fetch_prefix, fetch_host_of, from_str,
  to_string, IsCanonical,
}

-- `*` is not a host name, so the wildcard is the only reading of `net:fetch:*`.
star_is_no_host : is_host_name (codes "*") ≡ false
unfolding is_host_name
star_is_no_host = refl

host-ne-star : (h : Text) → is_host_name h ≡ true → text_eq h (codes "*") ≡ false
host-ne-star h valid = elim (Bool-cases (text_eq h (codes "*"))) [
  | inl e ↦ cc (star_is_no_host, valid, text_eq→eq h (codes "*") e)
  | inr ne ↦ ne
]

pub from_str-to_string : (c : Capability) → IsCanonical c → from_str (to_string c) ≡ ok c
unfolding from_str to_string text_eq
from_str-to_string (app_data read) v = refl
from_str-to_string (app_data read_write) v = refl
from_str-to_string (documents read) v = refl
from_str-to_string (documents read_write) v = refl
from_str-to_string (fetch any_host) v = refl
from_str-to_string (fetch (host h)) v =
    rw (host-ne-star h v) (rw (strip_prefix-append fetch_prefix h, fetch_host_of) (rw v))
from_str-to_string notifications v = refl
from_str-to_string clipboard_read v = refl
from_str-to_string clipboard_write v = refl
from_str-to_string gpu_compute v = refl
from_str-to_string gpu_render v = refl

-- What the last branch of the parser returns.
fetch_host_of-eq-ok :
    (s : Text) (o : Option Text) (c : Capability)
    → strip_prefix fetch_prefix s ≡ o
    → fetch_host_of s o ≡ ok c
    → (to_string c ≡ s) × IsCanonical c
unfolding fetch_host_of to_string
fetch_host_of-eq-ok s none c e h = cc
fetch_host_of-eq-ok s (some r) c e h = elim (Bool-cases (is_host_name r)) [
  | inl valid ↦
      subst (λ d. (to_string d ≡ s) × IsCanonical d) {x = fetch (host r)} (ground arith)
        (sym (strip_prefix-eq-some fetch_prefix s r e), valid)
  | inr bad ↦ ground arith
]

-- One test of the chain: its literal is what the value prints as.
pub from_str-IsCanonical :
    (s : Text) (c : Capability) → from_str s ≡ ok c → (to_string c ≡ s) × IsCanonical c
unfolding from_str to_string
from_str-IsCanonical s c h = ground (
  arith,
  text_eq→eq s (codes "fs:read:app-data"),
  text_eq→eq s (codes "fs:rw:app-data"),
  text_eq→eq s (codes "fs:read:xdg-documents"),
  text_eq→eq s (codes "fs:rw:xdg-documents"),
  text_eq→eq s (codes "net:fetch:*"),
  text_eq→eq s (codes "sys:notifications"),
  text_eq→eq s (codes "sys:clipboard:read"),
  text_eq→eq s (codes "sys:clipboard:write"),
  text_eq→eq s (codes "hw:gpu:compute"),
  text_eq→eq s (codes "hw:gpu:render"),
  fetch_host_of-eq-ok s (strip_prefix fetch_prefix s) c refl,
)

-- Parsing yields `c` exactly on the text that `c` prints as, and only canonical values: so no two
-- texts mean the same capability, and what is granted reads back as what was declared.
pub from_str-eq-ok :
    (s : Text) (c : Capability) → (from_str s ≡ ok c) ↔ ((to_string c ≡ s) × IsCanonical c)
from_str-eq-ok s c =
    (from_str-IsCanonical s c, λ h. subst (λ t. from_str t ≡ ok c) h.0 (from_str-to_string c h.1))
