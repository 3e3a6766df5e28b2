-- ===== src/RuntimeGrants/Addresses/Blocks.antt =====
-- The tests on octets are the special-purpose address blocks.
use weft_os.Base.{
  ℕ, ◌≡◌, ◌<◌, ◌+◌, ◌*◌, Bool, true, false, ◌&&◌, ◌||◌, not, leb, ltb, ◌==◌, List, [], ◌∷◌, any,
  arith,
}
use weft_os.RuntimeGrants.Addresses.{Ipv4Addr, is_public_v4}

-- The address as a 32-bit number.
abbrev pub number : Ipv4Addr → ℕ
number ip = ip.a * 16777216 + ip.b * 65536 + ip.c * 256 + ip.d

abbrev pub IsIpv4 : Ipv4Addr → Type 0
IsIpv4 ip = (ip.a < 256) × (ip.b < 256) × (ip.c < 256) × (ip.d < 256)

-- A block of addresses, by its first address and its size.
abbrev pub Block : Type 0
Block = ℕ × ℕ

abbrev pub in_block : ℕ → Block → Bool
in_block n (first, size) = leb first n && ltb n (first + size)

in_0 : (ip : Ipv4Addr) → IsIpv4 ip → in_block (number ip) (0, 16777216) ≡ (ip.a == 0)
in_0 ip h = ground arith

in_10 : (ip : Ipv4Addr) → IsIpv4 ip → in_block (number ip) (167772160, 16777216) ≡ (ip.a == 10)
in_10 ip h = ground arith

in_100 :
    (ip : Ipv4Addr)
    → IsIpv4 ip
    → in_block (number ip) (1681915904, 4194304) ≡ (ip.a == 100 && leb 64 ip.b && ltb ip.b 128)
in_100 ip h = ground arith

in_127 : (ip : Ipv4Addr) → IsIpv4 ip → in_block (number ip) (2130706432, 16777216) ≡ (ip.a == 127)
in_127 ip h = ground arith

in_169 :
    (ip : Ipv4Addr)
    → IsIpv4 ip
    → in_block (number ip) (2851995648, 65536) ≡ (ip.a == 169 && ip.b == 254)
in_169 ip h = ground arith

in_172 :
    (ip : Ipv4Addr)
    → IsIpv4 ip
    → in_block (number ip) (2886729728, 1048576) ≡ (ip.a == 172 && leb 16 ip.b && leb ip.b 31)
in_172 ip h = ground arith

in_192_0_0 :
    (ip : Ipv4Addr)
    → IsIpv4 ip
    → in_block (number ip) (3221225472, 256) ≡ (ip.a == 192 && ip.b == 0 && ip.c == 0)
in_192_0_0 ip h = ground arith

in_192_0_2 :
    (ip : Ipv4Addr)
    → IsIpv4 ip
    → in_block (number ip) (3221225984, 256) ≡ (ip.a == 192 && ip.b == 0 && ip.c == 2)
in_192_0_2 ip h = ground arith

in_192_168 :
    (ip : Ipv4Addr)
    → IsIpv4 ip
    → in_block (number ip) (3232235520, 65536) ≡ (ip.a == 192 && ip.b == 168)
in_192_168 ip h = ground arith

in_198_18 :
    (ip : Ipv4Addr)
    → IsIpv4 ip
    → in_block (number ip) (3323068416, 131072) ≡ (ip.a == 198 && leb 18 ip.b && ltb ip.b 20)
in_198_18 ip h = ground arith

in_198_51 :
    (ip : Ipv4Addr)
    → IsIpv4 ip
    → in_block (number ip) (3325256704, 256) ≡ (ip.a == 198 && ip.b == 51 && ip.c == 100)
in_198_51 ip h = ground arith

in_203 :
    (ip : Ipv4Addr)
    → IsIpv4 ip
    → in_block (number ip) (3405803776, 256) ≡ (ip.a == 203 && ip.b == 0 && ip.c == 113)
in_203 ip h = ground arith

in_224 :
    (ip : Ipv4Addr)
    → IsIpv4 ip
    → in_block (number ip) (3758096384, 268435456) ≡ (leb 224 ip.a && leb ip.a 239)
in_224 ip h = ground arith

in_240 : (ip : Ipv4Addr) → IsIpv4 ip → in_block (number ip) (4026531840, 268435456) ≡ (leb 240 ip.a)
in_240 ip h = ground arith

-- The tests in the order of the code and in the order of the addresses.
reorder :
    (z f u l p1 p2 p3 k m bc d1 d2 d3 c x y : Bool)
    → (u || z) ≡ z
    → (bc || f) ≡ f
    → not (u || l || (p1 || p2 || p3) || k || m || bc || (d1 || d2 || d3) || z || f || c || x || y)
      ≡ not (
          z
          || (p1
              || (c
                  || (l
                      || (k
                          || (p2
                              || (x
                                  || (d1
                                      || (p3
                                          || (y || (d2 || (d3 || (m || (f || (false)))))))))))))))
reorder true f u l p1 p2 p3 k m bc d1 d2 d3 c x y hz hf = ground arith
reorder false true u l p1 p2 p3 k m bc d1 d2 d3 c x y hz hf = ground arith
reorder false false u l p1 p2 p3 k m bc d1 d2 d3 c x y hz hf = ground arith

-- The special-purpose IPv4 blocks, in order of their addresses: 0.0.0.0/8, 10.0.0.0/8,
-- 100.64.0.0/10, 127.0.0.0/8, 169.254.0.0/16, 172.16.0.0/12, 192.0.0.0/24, 192.0.2.0/24,
-- 192.168.0.0/16, 198.18.0.0/15, 198.51.100.0/24, 203.0.113.0/24, 224.0.0.0/4 and 240.0.0.0/4.
abbrev pub special_blocks : List Block
special_blocks =
    (0, 16777216)
    ∷ (167772160, 16777216)
    ∷ (1681915904, 4194304)
    ∷ (2130706432, 16777216)
    ∷ (2851995648, 65536)
    ∷ (2886729728, 1048576)
    ∷ (3221225472, 256)
    ∷ (3221225984, 256)
    ∷ (3232235520, 65536)
    ∷ (3323068416, 131072)
    ∷ (3325256704, 256)
    ∷ (3405803776, 256)
    ∷ (3758096384, 268435456)
    ∷ (4026531840, 268435456)
    ∷ []

-- An IPv4 address is public exactly when it lies in none of the special-purpose blocks.
pub is_public_v4-special_blocks :
    (ip : Ipv4Addr) → IsIpv4 ip → is_public_v4 ip ≡ not (any (in_block (number ip)) special_blocks)
unfolding any is_public_v4
is_public_v4-special_blocks ip h =
    rw
      (
        in_0 ip h,
        in_10 ip h,
        in_100 ip h,
        in_127 ip h,
        in_169 ip h,
        in_172 ip h,
        in_192_0_0 ip h,
        in_192_0_2 ip h,
        in_192_168 ip h,
        in_198_18 ip h,
        in_198_51 ip h,
        in_203 ip h,
        in_224 ip h,
        in_240 ip h,
      )
      (reorder (ip.a == 0) (leb 240 ip.a) (ip.a == 0 && ip.b == 0 && ip.c == 0 && ip.d == 0)
        (ip.a == 127) (ip.a == 10) (ip.a == 172 && leb 16 ip.b && leb ip.b 31)
        (ip.a == 192 && ip.b == 168) (ip.a == 169 && ip.b == 254) (leb 224 ip.a && leb ip.a 239)
        (ip.a == 255 && ip.b == 255 && ip.c == 255 && ip.d == 255)
        (ip.a == 192 && ip.b == 0 && ip.c == 2) (ip.a == 198 && ip.b == 51 && ip.c == 100)
        (ip.a == 203 && ip.b == 0 && ip.c == 113) (ip.a == 100 && leb 64 ip.b && ltb ip.b 128)
        (ip.a == 192 && ip.b == 0 && ip.c == 0) (ip.a == 198 && leb 18 ip.b && ltb ip.b 20)
        (ground arith) (ground arith))
