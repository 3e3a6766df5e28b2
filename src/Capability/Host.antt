-- ===== src/Capability/Host.antt =====
-- `is_host_name` and `is_ipv4` of crates/weft-ipc-types/src/capability.rs
pub mod Ipv4
pub mod Bytes
use weft_os.Base.{
  ℕ, ◌+◌, ◌-◌, ◌*◌, Bool, true, false, not, ◌&&◌, ◌||◌, List, [], ◌∷◌, Option, none, some, Text,
  codes, ltb, leb, ◌==◌, if◌then◌else◌, length, is_empty, all, split, strip_prefix, starts_with,
  ends_with, is_digit, is_lowercase,
}

-- `labels.last()`; `split` yields at least one label
last : List Text → Text
last [] = []
last (l ∷ []) = l
last (l ∷ l' ∷ ls) = last (l' ∷ ls)

is_some : Option Text → Bool
is_some none = false
is_some (some t) = true

-- `octet.parse::<u16>()` of ASCII digits; three digits are below 2 ^ 16
decimal_value : ℕ → Text → ℕ
decimal_value n [] = n
decimal_value n (b ∷ s) = decimal_value (n * 10 + (b - 48)) s

pub is_octet : Text → Bool
unfolding decimal_value starts_with
is_octet octet =
    not (is_empty octet)
    && leb (length octet) 3
    && (length octet == 1 || not (starts_with b'0' octet))
    && all is_digit octet
    && leb (decimal_value 0 octet) 255

pub is_ipv4 : List Text → Bool
is_ipv4 labels = length labels == 4 && all is_octet labels

is_label_byte : ℕ → Bool
is_label_byte b = is_lowercase b || is_digit b || b == b'-'

pub is_label : Text → Bool
unfolding is_label_byte
is_label label =
    not (is_empty label)
    && leb (length label) 63
    && not (starts_with b'-' label)
    && not (ends_with b'-' label)
    && all is_label_byte label

unfoldable pub is_host_name : Text → Bool
unfolding is_octet is_ipv4 is_label last is_some split all strip_prefix starts_with ends_with
is_host_name host =
    let labels = split b'.' host in
    if is_some (strip_prefix (codes "0x") (last labels))
    then false
    else if not (is_empty (last labels)) && all is_digit (last labels)
    then is_ipv4 labels
    else leb (length host) 253 && all is_label labels
