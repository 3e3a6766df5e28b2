-- ===== src/RuntimeGrants/Addresses.antt =====
-- crates/weft-runtime/src/grants.rs: which addresses are public. The predicates of
-- `std::net::Ipv4Addr` and `Ipv6Addr` are written out as they are documented.
pub mod Blocks
pub mod Embedded
use Prim.Native.Nat.{bit_and}
use weft_os.Base.{ℕ, Bool, true, false, ◌&&◌, ◌||◌, not, leb, ltb, ◌==◌, ◌/◌, ◌%◌, if◌then◌else◌}

-- `[a, b, c, d]`: the octets
pub record Ipv4Addr : Type 0 where
  pub a : ℕ
  pub b : ℕ
  pub c : ℕ
  pub d : ℕ

-- the eight segments
pub record Ipv6Addr : Type 0 where
  pub s0 : ℕ
  pub s1 : ℕ
  pub s2 : ℕ
  pub s3 : ℕ
  pub s4 : ℕ
  pub s5 : ℕ
  pub s6 : ℕ
  pub s7 : ℕ

abbrev is_unspecified : Ipv4Addr → Bool
is_unspecified ip = ip.a == 0 && ip.b == 0 && ip.c == 0 && ip.d == 0

abbrev is_loopback : Ipv4Addr → Bool
is_loopback ip = ip.a == 127

abbrev is_private : Ipv4Addr → Bool
is_private ip =
    ip.a == 10 || (ip.a == 172 && leb 16 ip.b && leb ip.b 31) || (ip.a == 192 && ip.b == 168)

abbrev is_link_local : Ipv4Addr → Bool
is_link_local ip = ip.a == 169 && ip.b == 254

abbrev is_multicast : Ipv4Addr → Bool
is_multicast ip = leb 224 ip.a && leb ip.a 239

abbrev is_broadcast : Ipv4Addr → Bool
is_broadcast ip = ip.a == 255 && ip.b == 255 && ip.c == 255 && ip.d == 255

abbrev is_documentation : Ipv4Addr → Bool
is_documentation ip =
    (ip.a == 192 && ip.b == 0 && ip.c == 2)
    || (ip.a == 198 && ip.b == 51 && ip.c == 100)
    || (ip.a == 203 && ip.b == 0 && ip.c == 113)

-- the arm `IpAddr::V4`
unfoldable pub is_public_v4 : Ipv4Addr → Bool
is_public_v4 ip = not (
    is_unspecified ip
    || is_loopback ip
    || is_private ip
    || is_link_local ip
    || is_multicast ip
    || is_broadcast ip
    || is_documentation ip
    || ip.a == 0
    || leb 240 ip.a
    || (ip.a == 100 && leb 64 ip.b && ltb ip.b 128)
    || (ip.a == 192 && ip.b == 0 && ip.c == 0)
    || (ip.a == 198 && leb 18 ip.b && ltb ip.b 20))

-- the closure `embedded`: a 16-bit shift and two truncations to 8 bits
abbrev pub embedded : ℕ → ℕ → Ipv4Addr
embedded high low = record {
  a = (high / 256) % 256;
  b = high % 256;
  c = (low / 256) % 256;
  d = low % 256;
}

-- `seg[..6] == [...]`
abbrev pub first_six : Ipv6Addr → ℕ → ℕ → ℕ → ℕ → ℕ → ℕ → Bool
first_six ip n0 n1 n2 n3 n4 n5 =
    ip.s0 == n0 && ip.s1 == n1 && ip.s2 == n2 && ip.s3 == n3 && ip.s4 == n4 && ip.s5 == n5

-- `0x0064 = 100`, `0xff9b = 65435`, `0xfe00 = 65024`, `0xfc00 = 64512`, `0xffc0 = 65472`,
-- `0xfe80 = 65152`, `0xfec0 = 65216`, `0x2001 = 8193`, `0xfff0 = 65520`, `0x0db8 = 3512`,
-- `0x3fff = 16383`, `0xf000 = 61440`, `0xff00 = 65280`; the first three
-- tests are `is_unspecified`, `is_loopback` and `is_multicast` of `std`
is_special_v6 : Ipv6Addr → Bool
is_special_v6 ip =
    (first_six ip 0 0 0 0 0 0 && ip.s6 == 0 && ip.s7 == 0)
    || (first_six ip 0 0 0 0 0 0 && ip.s6 == 0 && ip.s7 == 1)
    || bit_and ip.s0 65280 == 65280
    || bit_and ip.s0 65024 == 64512
    || bit_and ip.s0 65472 == 65152
    || bit_and ip.s0 65472 == 65216
    || (ip.s0 == 100 && ip.s1 == 65435)
    || (ip.s0 == 256 && ip.s1 == 0 && ip.s2 == 0 && ip.s3 == 0)
    || (ip.s0 == 8193 && ip.s1 == 0)
    || (ip.s0 == 8193 && ip.s1 == 2 && ip.s2 == 0)
    || (ip.s0 == 8193 && (bit_and ip.s1 65520 == 16 || bit_and ip.s1 65520 == 32))
    || (ip.s0 == 8193 && ip.s1 == 3512)
    || (ip.s0 == 16383 && bit_and ip.s1 61440 == 0)

-- the arm `IpAddr::V6`
unfoldable pub is_public_v6 : Ipv6Addr → Bool
unfolding is_special_v6 is_public_v4
is_public_v6 ip =
    if first_six ip 0 0 0 0 0 65535
    then is_public_v4 (embedded ip.s6 ip.s7)
    else if first_six ip 0 0 0 0 65535 0
    then is_public_v4 (embedded ip.s6 ip.s7)
    else if first_six ip 0 0 0 0 0 0 && not (ip.s6 == 0 && leb ip.s7 1)
    then is_public_v4 (embedded ip.s6 ip.s7)
    else if ip.s0 == 8194
    then is_public_v4 (embedded ip.s1 ip.s2)
    else if first_six ip 100 65435 0 0 0 0
    then is_public_v4 (embedded ip.s6 ip.s7)
    else not (is_special_v6 ip)
