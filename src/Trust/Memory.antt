-- ===== src/Trust/Memory.antt =====
-- Toy cryptography, a concrete case of the interface. The child `Records` is a file system in
-- memory for owner records.
pub mod Records
use weft_os.Base.{
  ℕ, zero, suc, ◌≡◌, ◌≢◌, refl, sym, ap, ◌∙◌, ◌+◌, ◌*◌, ◌/◌, ◌%◌, ◌<◌, ◌==◌, ltb, leb, is_digit,
  ==_iff, ==_refl, ◌&&◌, ◌||◌, all, length, take, drop, text_eq, Bool, true, false, Bool-cases, inl,
  inr, List, [], ◌∷◌, ◌++◌, Option, none, some, Text, codes, Result, ok, err, is_ok, if◌then◌else◌,
  arith, ◌-◌, text_eq,
}
use weft_os.Trust.{Crypto}
use weft_os.Trust.Inventory.Lines.{CryptoLaws, IsBytes}
use weft_os.Trust.Owners.RoundTrip.{KeyLaws}

abbrev hex_digit : ℕ → ℕ
hex_digit d = if ltb d 10 then d + 48 else d + 87

abbrev digit_value : ℕ → ℕ
digit_value b = if ltb b 58 then b - 48 else b - 87

unfoldable encode : Text → Text
encode [] = []
encode (b ∷ s) = hex_digit ((b / 16) % 16) ∷ hex_digit (b % 16) ∷ encode s

unfoldable decode : Text → Option Text
decode [] = some []
decode (a ∷ []) = none
decode (a ∷ b ∷ s) = elim (decode s) [
  | none ↦ none
  | some r ↦ some ((digit_value a * 16 + digit_value b) ∷ r)
]

digit_value-hex_digit : (d : ℕ) → d < 16 → digit_value (hex_digit d) ≡ d
digit_value-hex_digit d h = ground arith

byte : (b : ℕ) → b < 256 → ((b / 16) % 16) * 16 + b % 16 ≡ b
byte b h = omega arith

decode-encode_lem : (s : Text) → IsBytes s → decode (encode s) ≡ some s
unfolding decode encode all
decode-encode_lem [] h = refl
decode-encode_lem (b ∷ s) h =
    rw
      (
        decode-encode_lem s (ground arith),
        digit_value-hex_digit ((b / 16) % 16) (omega arith),
        digit_value-hex_digit (b % 16) (omega arith),
      )
      (ap (λ z. some (z ∷ s)) (byte b (ground arith)))

length-encode_lem : (s : Text) → length (encode s) ≡ length s + length s
unfolding encode
length-encode_lem [] = refl
length-encode_lem (b ∷ s) = rw (length-encode_lem s) (omega arith)

digit_is_hex :
    (d : ℕ)
    → d < 16
    → (is_digit (hex_digit d) || (leb b'a' (hex_digit d) && leb (hex_digit d) b'f')) ≡ true
digit_is_hex d h = ground arith

digits : (s : Text) → all (λ b. is_digit b || (leb b'a' b && leb b b'f')) (encode s) ≡ true
unfolding encode all
digits [] = refl
digits (b ∷ s) = rw (digits s) (ground (arith, digit_is_hex ((b / 16) % 16), digit_is_hex (b % 16)))

pub data ToyKey : Type 0 where
  key_a key_b : ToyKey

unfoldable pub toy_bytes : ToyKey → Text
toy_bytes key_a = codes "aaaaaaaaaaaaaaaaaaaaaaaaaaaaaaaa"
toy_bytes key_b = codes "bbbbbbbbbbbbbbbbbbbbbbbbbbbbbbbb"

unfoldable pub toy_key : Text → Option ToyKey
toy_key [] = none
toy_key (b ∷ s) = if b == b'a' then some key_a else if b == b'b' then some key_b else none

-- A hash of one byte; a signature starts with the key's first byte and the digest.
unfoldable pub toy : Crypto ToyKey Text
unfolding encode decode toy_bytes toy_key
toy = record {
  sha256 = λ t. (length t % 256) ∷ [];
  hex_encode = encode;
  hex_decode = decode;
  key_from_bytes = toy_key;
  key_bytes = toy_bytes;
  verify_strict =
      λ k d s. text_eq (take 1 s) (take 1 (toy_bytes k)) && text_eq (take 1 (drop 1 s)) d;
  signature_from_bytes = λ s. s;
}

pub toy-CryptoLaws : CryptoLaws toy
unfolding all toy
toy-CryptoLaws = record {
  decode-encode = decode-encode_lem;
  length-encode = length-encode_lem;
  encode-digits = digits;
  sha256-IsBytes = λ t. ground arith;
}

known : (k : ToyKey) → toy_key (toy_bytes k) ≡ some k
unfolding toy_key toy_bytes
known key_a = refl
known key_b = refl

bounded : (k : ToyKey) → IsBytes (toy_bytes k)
unfolding toy_bytes all
bounded key_a = refl
bounded key_b = refl

thirty_two : (k : ToyKey) → length (toy_bytes k) ≡ 32
unfolding toy_bytes
thirty_two key_a = refl
thirty_two key_b = refl

pub toy-KeyLaws : KeyLaws toy
unfolding toy
toy-KeyLaws = record {
  from_bytes-bytes = known;
  bytes-IsBytes = bounded;
  length-bytes = thirty_two;
}
