-- ===== src/RuntimeGrants/Addresses/Embedded.antt =====
-- IPv6 addresses that carry an IPv4 address.
use weft_os.Base.{
  ℕ, ◌≡◌, refl, ap, ◌+◌, ◌*◌, ◌/◌, ◌%◌, true, false, Bool-cases, inl, inr, ◌&&◌, leb, ◌==◌, arith,
}
use weft_os.RuntimeGrants.Addresses.{
  Ipv4Addr, Ipv6Addr, is_public_v4, is_public_v6, is_special_v6, embedded,
}
use weft_os.RuntimeGrants.Addresses.Blocks.{IsIpv4}

-- The forms of an IPv6 address that carry an IPv4 address: mapped, IPv4-translated, compatible,
-- 6to4 with the rest of its segments, and NAT64.
pub data Form : Type 0 where
  mapped translated compatible nat64 : Form
  six_to_four : ℕ → ℕ → ℕ → ℕ → ℕ → Form

abbrev high : Ipv4Addr → ℕ
high ip = ip.a * 256 + ip.b

abbrev low : Ipv4Addr → ℕ
low ip = ip.c * 256 + ip.d

abbrev pub segments : ℕ → ℕ → ℕ → ℕ → ℕ → ℕ → ℕ → ℕ → Ipv6Addr
segments n0 n1 n2 n3 n4 n5 n6 n7 = record {
  s0 = n0;
  s1 = n1;
  s2 = n2;
  s3 = n3;
  s4 = n4;
  s5 = n5;
  s6 = n6;
  s7 = n7;
}

abbrev pub carry : Form → Ipv4Addr → Ipv6Addr
carry mapped ip = segments 0 0 0 0 0 65535 (high ip) (low ip)
carry translated ip = segments 0 0 0 0 65535 0 (high ip) (low ip)
carry compatible ip = segments 0 0 0 0 0 0 (high ip) (low ip)
carry nat64 ip = segments 100 65435 0 0 0 0 (high ip) (low ip)
carry (six_to_four n3 n4 n5 n6 n7) ip = segments 8194 (high ip) (low ip) n3 n4 n5 n6 n7

embedded-carry : (ip : Ipv4Addr) → IsIpv4 ip → embedded (high ip) (low ip) ≡ ip
embedded-carry ip h = rw (high_a, high_b, low_c, low_d) refl
  where
    high_a : (ip.a * 256 + ip.b) / 256 % 256 ≡ ip.a
    high_a = omega arith

    high_b : (ip.a * 256 + ip.b) % 256 ≡ ip.b
    high_b = omega arith

    low_c : (ip.c * 256 + ip.d) / 256 % 256 ≡ ip.c
    low_c = omega arith

    low_d : (ip.c * 256 + ip.d) % 256 ≡ ip.d
    low_d = omega arith

is_special_v6-low :
    (h l : ℕ) → (h == 0 && leb l 1) ≡ true → is_special_v6 (segments 0 0 0 0 0 0 h l) ≡ true
unfolding is_special_v6
is_special_v6-low h l e = ground arith

is_public_v4-zero :
    (ip : Ipv4Addr) → (high ip == 0 && leb (low ip) 1) ≡ true → is_public_v4 ip ≡ false
unfolding is_public_v4
is_public_v4-zero ip e = rw zero_first (ground arith)
  where
    zero_first : (ip.a == 0) ≡ true
    zero_first = ground arith

-- `::` and `::1` are judged as IPv6 addresses, and are not public, as 0.0.0.0 and 0.0.0.1 are not.
compatible-carry :
    (ip : Ipv4Addr) → IsIpv4 ip → is_public_v6 (carry compatible ip) ≡ is_public_v4 ip
unfolding is_public_v6
compatible-carry ip h = elim (Bool-cases (high ip == 0 && leb (low ip) 1)) [
  | inl e ↦ rw (e, is_special_v6-low (high ip) (low ip) e, is_public_v4-zero ip e) refl
  | inr e ↦ rw e (ap is_public_v4 (embedded-carry ip h))
]

-- An IPv6 address that carries an IPv4 address is public exactly when that address is.
pub is_public_v6-carry :
    (form : Form) (ip : Ipv4Addr) → IsIpv4 ip → is_public_v6 (carry form ip) ≡ is_public_v4 ip
unfolding is_public_v6
is_public_v6-carry mapped ip h = ap is_public_v4 (embedded-carry ip h)
is_public_v6-carry translated ip h = ap is_public_v4 (embedded-carry ip h)
is_public_v6-carry compatible ip h = compatible-carry ip h
is_public_v6-carry nat64 ip h = ap is_public_v4 (embedded-carry ip h)
is_public_v6-carry (six_to_four n3 n4 n5 n6 n7) ip h = ap is_public_v4 (embedded-carry ip h)
