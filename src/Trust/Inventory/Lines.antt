-- ===== src/Trust/Inventory/Lines.antt =====
-- The lines of an inventory can be told apart.
use weft_os.Base.{
  ◌≡◌, refl, sym, ap, ◌∙◌, ◌||◌, ◌&&◌, ◌==◌, ℕ, true, false, not, [], ◌∷◌, some, length, ◌+◌,
  some-injective, Text, ◌++◌, all, All, is_digit, leb, ltb, arith,
}
use weft_os.Trust.{Crypto}
use weft_os.Trust.Inventory.{Entries, has_control, inventory_text}

abbrev pub IsBytes : Text → Type 0
IsBytes s = all (λ b. ltb b 256) s ≡ true

-- What the crate `hex` documents, and that a hash is made of bytes.
pub record CryptoLaws {Key Signature : Type 0} (c : Crypto Key Signature) : Type 0 where
  pub decode-encode :
      (bytes : Text) → IsBytes bytes → c.hex_decode (c.hex_encode bytes) ≡ some bytes
  pub length-encode : (bytes : Text) → length (c.hex_encode bytes) ≡ length bytes + length bytes
  pub encode-digits :
      (bytes : Text)
      → all (λ b. is_digit b || (leb b'a' b && leb b b'f')) (c.hex_encode bytes) ≡ true
  pub sha256-IsBytes : (t : Text) → IsBytes (c.sha256 t)

abbrev Lacks : ℕ → Text → Type 0
Lacks a s = all (λ b. not (b == a)) s ≡ true

abbrev pub Clean : Text × Text → Type 0
Clean e = (has_control e.0 ≡ false) × IsBytes e.1

has_control-Lacks : (a : ℕ) (s : Text) → ltb a 32 ≡ true → has_control s ≡ false → Lacks a s
unfolding has_control all
has_control-Lacks a [] h e = refl
has_control-Lacks a (b ∷ []) h e = ground arith
has_control-Lacks a (b ∷ d ∷ s) h e =
    let rest = has_control-Lacks a (d ∷ s) h (ground arith) in ground arith

hex-Lacks :
    (s : Text) → all (λ b. is_digit b || (leb b'a' b && leb b b'f')) s ≡ true → Lacks b'\n' s
unfolding all
hex-Lacks [] h = refl
hex-Lacks (b ∷ s) h = ground (arith, hex-Lacks s)

head : (a b : ℕ) (s t : Text) → ◌≡◌ {A = Text} (a ∷ s) (b ∷ t) → a ≡ b
head a b s t e = cc

cons : (a b : ℕ) (s t : Text) → a ≡ b → s ≡ t → ◌≡◌ {A = Text} (a ∷ s) (b ∷ t)
cons a b s t e f = rw (e, f) refl

first : (a b : ℕ) (s : Text) → Lacks a (b ∷ s) → a ≡ b → ⊥
unfolding all
first a b s h e = ground arith

-- A text up to the first separator.
cut :
    (a : ℕ) (s t u v : Text)
    → Lacks a s
    → Lacks a t
    → s ++ (a ∷ u) ≡ t ++ (a ∷ v)
    → (s ≡ t) × (u ≡ v)
unfolding all
cut a [] [] u v h k e = (refl, cc)
cut a [] (b ∷ t) u v h k e = absurd (first a b t k (head a b u (t ++ (a ∷ v)) e))
cut a (b ∷ s) [] u v h k e = absurd (first a b s h (sym (head b a (s ++ (a ∷ u)) v e)))
cut a (b ∷ s) (d ∷ t) u v h k e =
    let (same, rest) = cut a s t u v (ground arith) (ground arith) cc in
    (cons b d s t (head b d (s ++ (a ∷ u)) (t ++ (a ∷ v)) e) same, rest)

no_text : (p : Text) (b : ℕ) (s : Text) → [] ≡ p ++ (b ∷ s) → ⊥
no_text [] b s e = cc
no_text (a ∷ p) b s e = cc

module _ {Key Signature : Type 0} (c : Crypto Key Signature) where
  hex_injective :
      CryptoLaws c → (a b : Text) → IsBytes a → IsBytes b → c.hex_encode a ≡ c.hex_encode b → a ≡ b
  hex_injective laws a b h k e =
      some-injective (sym (laws.decode-encode a h) ∙ (ap c.hex_decode e ∙ laws.decode-encode b k))

  pub inventory_text-injective :
      CryptoLaws c
      → (es fs : Entries) → All Clean es
      → All Clean fs
      → inventory_text c es ≡ inventory_text c fs
      → es ≡ fs
  unfolding inventory_text
  inventory_text-injective laws [] [] h k e = refl
  inventory_text-injective laws [] ((p, a) ∷ fs) h k e =
      absurd (no_text p b'\t' ((c.hex_encode a ++ (b'\n' ∷ inventory_text c fs))) e)
  inventory_text-injective laws ((p, a) ∷ es) [] h k e =
      absurd (no_text p b'\t' ((c.hex_encode a ++ (b'\n' ∷ inventory_text c es))) (sym e))
  inventory_text-injective laws ((p, a) ∷ es) ((q, b) ∷ fs) h k e =
      let (path, rest) =
        cut b'\t' p q (c.hex_encode a ++ (b'\n' ∷ inventory_text c es))
          (c.hex_encode b ++ (b'\n' ∷ inventory_text c fs)) (has_control-Lacks b'\t' p refl h.0.0)
          (has_control-Lacks b'\t' q refl k.0.0) e in
      let (hash, more) =
        cut b'\n' (c.hex_encode a) (c.hex_encode b) (inventory_text c es) (inventory_text c fs)
          (hex-Lacks (c.hex_encode a) (laws.encode-digits a))
          (hex-Lacks (c.hex_encode b) (laws.encode-digits b)) rest in
      let same = inventory_text-injective laws es fs h.1 k.1 more in
      rw (path, hex_injective laws a b h.0.1 k.0.1 hash, same) refl
