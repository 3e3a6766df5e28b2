-- ===== src/Trust/Owners/RoundTrip.antt =====
-- An owner record, read back.
use weft_os.Base.{
  ◌≡◌, refl, ◌∙◌, ◌&&◌, ◌||◌, true, false, [], ◌∷◌, some, Text, codes, ◌++◌, is_digit, leb, all,
  length, is_empty, text_eq, trim, trim_start, trim_end, is_clean, trim-clean, ok, arith,
}
use weft_os.Trust.{Crypto, to_hex, from_hex, malformed_at, sized, known_key}
use weft_os.Trust.Inventory.Lines.{CryptoLaws, IsBytes}
use weft_os.Trust.Owners.{
  OwnerFiles, Owner, verified, development, owner_text, owner_read, by_words, split_once,
  read_owner, write_owner,
}
use weft_os.Trust.Owners.Written.{Observation, Lawful}
use weft_os.Trust.Owners.Kept.{write_owner-Outcome}

hex-clean :
    (s : Text) → all (λ b. is_digit b || (leb b'a' b && leb b b'f')) s ≡ true → is_clean s ≡ true
unfolding all
hex-clean [] h = refl
hex-clean (b ∷ s) h = ground (arith, hex-clean s)

trim_end-newline : (s : Text) → is_clean s ≡ true → trim_end (s ++ codes "\n") ≡ s
unfolding trim_end all
trim_end-newline [] h = refl
trim_end-newline (b ∷ s) h = rw (trim_end-newline s (ground arith)) (ground arith)

trim-verified :
    (s : Text)
    → is_clean s ≡ true
    → is_empty s ≡ false
    → trim (codes "verified " ++ (s ++ codes "\n")) ≡ codes "verified " ++ s
unfolding trim trim_start trim_end
trim-verified s h k = rw (trim_end-newline s h, k) refl

not_empty : (s : Text) → length s ≡ 64 → is_empty s ≡ false
not_empty [] h = cc
not_empty (b ∷ s) h = refl

trim-development : trim (codes "development\n") ≡ codes "development"
unfolding trim trim_start trim_end
trim-development = refl

module _ {Key Signature : Type 0} (c : Crypto Key Signature) where
  -- What `VerifyingKey` documents.
  pub record KeyLaws : Type 0 where
    pub from_bytes-bytes : (key : Key) → c.key_from_bytes (c.key_bytes key) ≡ some key
    pub bytes-IsBytes : (key : Key) → IsBytes (c.key_bytes key)
    pub length-bytes : (key : Key) → length (c.key_bytes key) ≡ 32

  module _ (hex : CryptoLaws c) (keys : KeyLaws) where
    from_hex-to_hex : (key : Key) → from_hex c (to_hex c key) ≡ ok key
    unfolding from_hex sized known_key
    from_hex-to_hex key =
        let clean = hex-clean (to_hex c key) (hex.encode-digits (c.key_bytes key)) in
        rw
          (
            trim-clean (to_hex c key) clean,
            hex.decode-encode (c.key_bytes key) (keys.bytes-IsBytes key),
            keys.length-bytes key,
            keys.from_bytes-bytes key,
          )
          refl

    to_hex-some : (key : Key) → is_empty (to_hex c key) ≡ false
    to_hex-some key =
        not_empty (to_hex c key)
          (hex.length-encode (c.key_bytes key) ∙ rw (keys.length-bytes key) refl)

    by_words-verified :
        (path t : Text) (key : Key)
        → by_words c path t (split_once b' ' (codes "verified " ++ to_hex c key))
          ≡ ok (some (verified key))
    unfolding by_words split_once malformed_at text_eq
    by_words-verified path t key = rw (from_hex-to_hex key) refl

    by_words-development :
        (path : Text)
        → by_words c path (codes "development") (split_once b' ' (codes "development"))
          ≡ ok (some development)
    unfolding by_words split_once text_eq
    by_words-development path = refl

    owner_read-owner_text :
        (path : Text) (owner : Owner Key)
        → owner_read c path (ok (owner_text c owner)) ≡ ok (some owner)
    unfolding owner_read owner_text
    owner_read-owner_text path (verified key) =
        let clean = hex-clean (to_hex c key) (hex.encode-digits (c.key_bytes key)) in
        rw (trim-verified (to_hex c key) clean (to_hex-some key))
          (by_words-verified path (codes "verified " ++ to_hex c key) key)
    owner_read-owner_text path development = rw trim-development (by_words-development path)

module _ {ℓ} {S File : Type ℓ} {Key Signature : Type 0} (c : Crypto Key Signature)
    (hex : CryptoLaws c) (keys : KeyLaws c) (fs : OwnerFiles S File) (o : Observation S File)
    (laws : Lawful c fs o) where
  -- An owner that was recorded is read back, by any read of the record that does not fail.
  pub read_owner-write_owner :
      (s s' : S) (pid path t : Text) (owner : Owner Key)
      → all is_digit pid ≡ true
      → write_owner c fs s pid path owner ≡ some (s', ok tt)
      → fs.read_to_string s' path ≡ ok t
      → read_owner c fs s' path ≡ ok (some owner)
  unfolding read_owner
  read_owner-write_owner s s' pid path t owner digits h r =
      let (free, (f, named, bytes)) =
        write_owner-Outcome c fs o laws s s' pid path owner (ok tt) digits h in
      rw (r, laws.read_to_string-bytes s' path t f r named, bytes)
        (owner_read-owner_text c hex keys path owner)
