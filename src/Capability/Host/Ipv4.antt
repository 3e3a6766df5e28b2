-- ===== src/Capability/Host/Ipv4.antt =====
-- IPv4 hosts are exactly the dotted-decimal forms.
use weft_os.Base.{
  ℕ, ◌+◌, ◌/◌, ◌%◌, ◌≤◌, ◌≡◌, refl, ◌↔◌, true, List, [], ◌∷◌, map, Text, ltb, ◌==◌, if◌then◌else◌,
  arith, All, all, length, ap, suc, &&-eq-true, ==_iff, ◌∙◌, subst,
}
use weft_os.Capability.Host.{is_octet, is_ipv4, decimal_value}

-- A number below 1000 in decimal, without leading zeros.
abbrev pub decimal : ℕ → Text
decimal n =
    if ltb n 10
    then (48 + n) ∷ []
    else if ltb n 100
    then (48 + n / 10) ∷ (48 + n % 10) ∷ []
    else (48 + n / 100) ∷ (48 + n / 10 % 10) ∷ (48 + n % 10) ∷ []

octet-decimal : (n : ℕ) → n ≤ 255 → is_octet (decimal n) ≡ true
unfolding is_octet all
octet-decimal n h = ground arith

decimal-octet :
    (o : Text) → is_octet o ≡ true → (decimal_value 0 o ≤ 255) × (decimal (decimal_value 0 o) ≡ o)
unfolding is_octet all
decimal-octet [] h = cc
decimal-octet (a ∷ []) h = ground arith
decimal-octet (a ∷ b ∷ []) h = ground arith
decimal-octet (a ∷ b ∷ c ∷ []) h = ground arith
decimal-octet (a ∷ b ∷ c ∷ d ∷ o) h = ground arith

length-map-decimal : (ns : List ℕ) → length (map decimal ns) ≡ length ns
length-map-decimal [] = refl
length-map-decimal (n ∷ ns) = ap suc (length-map-decimal ns)

all-octet-map : (ns : List ℕ) → All (λ n. n ≤ 255) ns → all is_octet (map decimal ns) ≡ true
unfolding all
all-octet-map [] h = refl
all-octet-map (n ∷ ns) h = rw (octet-decimal n h.0) (all-octet-map ns h.1)

octets_of :
    (os : List Text)
    → all is_octet os ≡ true
    → (ns : List ℕ) × All (λ n. n ≤ 255) ns × (map decimal ns ≡ os) × (length ns ≡ length os)
unfolding all
octets_of [] h = ([], tt, refl, refl)
octets_of (o ∷ os) h =
    let (first, rest) = &&-eq-true (is_octet o) (all is_octet os) h in
    let (bound, shown) = decimal-octet o first in
    let (ns, small, printed, same) = octets_of os rest in
    (decimal_value 0 o ∷ ns, (bound, small), cc, cc)

-- The labels of an IPv4 host are the decimal forms of four numbers below 256, and any four such
-- numbers are accepted: no leading zeros, no other spelling of an address.
is_ipv4_iff :
    (labels : List Text)
    → (is_ipv4 labels ≡ true)
      ↔ ((ns : List ℕ) × (length ns ≡ 4) × All (λ n. n ≤ 255) ns × (map decimal ns ≡ labels))
unfolding is_ipv4
is_ipv4_iff labels = (
  λ h.
      let (four, octets) = &&-eq-true (length labels == 4) (all is_octet labels) h in
      let (ns, small, printed, same) = octets_of labels octets in
      (ns, same ∙ (==_iff (length labels) 4).0 four, small, printed),
  λ (ns, four, small, printed).
      subst (λ ls. is_ipv4 ls ≡ true) printed
        (rw (all-octet-map ns small) (ground (arith, length-map-decimal ns))),
)
