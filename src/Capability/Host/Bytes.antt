-- ===== src/Capability/Host/Bytes.antt =====
-- What an accepted host can contain.
use weft_os.Base.{
  ℕ, ◌*◌, ◌≤◌, ◌<◌, ◌≡◌, refl, Bool, true, false, ◌||◌, List, [], ◌∷◌, Text, ◌==◌, arith, all,
  all-split, length, is_digit, is_lowercase, is_empty, split, joined_length, joined_length-split,
}
use weft_os.Capability.Host.{is_octet, is_ipv4, is_label, is_label_byte, is_host_name}

abbrev pub is_host_byte : ℕ → Bool
is_host_byte b = is_lowercase b || is_digit b || b == b'-' || b == b'.'

is_octet-label_bytes : (o : Text) → is_octet o ≡ true → (all is_digit o ≡ true) × (length o ≤ 3)
unfolding is_octet
is_octet-label_bytes o h = ground arith

digits-label_bytes : (o : Text) → all is_digit o ≡ true → all is_label_byte o ≡ true
unfolding all is_label_byte
digits-label_bytes [] h = refl
digits-label_bytes (b ∷ o) h = ground (arith, digits-label_bytes o)

octets-label_bytes :
    (os : List Text)
    → all is_octet os ≡ true
    → (all (all is_label_byte) os ≡ true) × (joined_length os ≤ 4 * length os)
unfolding all
octets-label_bytes [] h = ground arith
octets-label_bytes (o ∷ os) h =
    ground (arith, is_octet-label_bytes o, digits-label_bytes o, octets-label_bytes os)

labels-label_bytes : (ls : List Text) → all is_label ls ≡ true → all (all is_label_byte) ls ≡ true
unfolding all is_label
labels-label_bytes [] h = refl
labels-label_bytes (l ∷ ls) h = ground (arith, labels-label_bytes ls)

host_bytes :
    (s : Text) → all (λ b. is_label_byte b || b == b'.') s ≡ true → all is_host_byte s ≡ true
unfolding all is_label_byte
host_bytes [] h = refl
host_bytes (b ∷ s) h = ground (arith, host_bytes s)

-- The two forms of a host.
is_host_name-forms :
    (h : Text)
    → is_host_name h ≡ true
    → (all (all is_label_byte) (split b'.' h) ≡ true) × (length h ≤ 253)
unfolding is_host_name is_ipv4
is_host_name-forms h v = ground (
  arith,
  octets-label_bytes (split b'.' h),
  labels-label_bytes (split b'.' h),
  joined_length-split b'.' h,
)

-- A host with no bytes has one empty label.
empty_host : (h : Text) → is_empty h ≡ true → is_host_name h ≡ false
unfolding is_host_name
empty_host [] e = refl
empty_host (b ∷ h) e = cc

-- An accepted host is 1 to 253 bytes of `a-z 0-9 - .`: no `:` that could carry a port or another
-- capability's separator, no `/`, no `*`, no upper case.
pub is_host_name-bytes :
    (h : Text)
    → is_host_name h ≡ true
    → (all is_host_byte h ≡ true) × (0 < length h) × (length h ≤ 253)
is_host_name-bytes [] v = cc (empty_host [] refl)
is_host_name-bytes (b ∷ h) v =
    let (labels, bound) = is_host_name-forms (b ∷ h) v in
    (host_bytes (b ∷ h) (all-split is_label_byte b'.' (b ∷ h) labels), omega arith, bound)
