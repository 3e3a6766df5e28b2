-- ===== src/Frame/RoundTrip.antt =====
-- What one side encodes, the other decodes.
use weft_os.Base.{
  ℕ, ◌+◌, ◌^◌, ◌<◌, ◌≤◌, ◌≡◌, refl, ◌++◌, Option, none, some, Text, ok, length, length-append, drop,
  length-drop, arith, inl, inr, Option-cases,
}
use weft_os.Frame.{
  Codec, max_frame_len, to_le_bytes, from_le_bytes, frame_encode, frame_decode, decoded,
}

-- The header reads back as the length, for a length that fits in 32 bits.
pub from_le_bytes-to_le_bytes :
    (n : ℕ) (s : Text) → n < 2 ^ 32 → from_le_bytes (to_le_bytes n ++ s) ≡ n
unfolding from_le_bytes to_le_bytes
from_le_bytes-to_le_bytes n s h = omega arith

drop-to_le_bytes : (n : ℕ) (s : Text) → drop 4 (to_le_bytes n ++ s) ≡ s
unfolding to_le_bytes
drop-to_le_bytes n s = refl

pub length-to_le_bytes : (n : ℕ) → length (to_le_bytes n) ≡ 4
unfolding to_le_bytes
length-to_le_bytes n = refl

decoded-eq-ok : {M : Type 0} (o : Option M) (m : M) → decoded o ≡ ok m → o ≡ some m
unfolding decoded
decoded-eq-ok none m h = cc
decoded-eq-ok (some n) m h = cc

module _ {M : Type 0} (c : Codec M) where
  -- A frame that was encoded is the header and a body within the limit.
  pub frame_encode-eq-ok :
      (m : M) (f : Text)
      → frame_encode c m ≡ ok f
      → (body : Text) × (c.to_vec m ≡ some body)
        × (f ≡ to_le_bytes (length body) ++ body)
        × (length body ≤ max_frame_len)
  unfolding frame_encode
  frame_encode-eq-ok m f h = elim (Option-cases (c.to_vec m)) [
    | inl e ↦ ground arith
    | inr (body, e) ↦ (body, e, ground arith, ground arith)
  ]

  pub frame_decode-frame :
      (m : M) (body : Text)
      → c.to_vec m ≡ some body
      → length body ≤ max_frame_len
      → frame_decode c (to_le_bytes (length body) ++ body) ≡ ok m
  unfolding frame_decode
  frame_decode-frame m body e h = ground (
    arith,
    from_le_bytes-to_le_bytes (length body) body,
    drop-to_le_bytes (length body) body,
    length-append (to_le_bytes (length body)) body,
    length-to_le_bytes (length body),
    c.from_slice-to_vec m body e,
  )

  -- Every message that is encoded at all decodes to itself, from exactly the bytes that were sent.
  pub frame_decode-frame_encode :
      (m : M) (f : Text) → frame_encode c m ≡ ok f → frame_decode c f ≡ ok m
  frame_decode-frame_encode m f h =
      let (body, encoded, e, small) = frame_encode-eq-ok m f h in
      rw e (frame_decode-frame m body encoded small)

  -- A frame decodes only if its header is the length of its body, which is within the limit.
  frame_decode-eq-ok :
      (f : Text) (m : M)
      → frame_decode c f ≡ ok m
      → (length f ≡ 4 + from_le_bytes f)
        × (from_le_bytes f ≤ max_frame_len)
        × (c.from_slice (drop 4 f) ≡ some m)
  unfolding frame_decode
  frame_decode-eq-ok f m h =
      ground (arith, length-drop 4 f, decoded-eq-ok (c.from_slice (drop 4 f)) m)
