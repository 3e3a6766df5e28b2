-- ===== src/Frame.antt =====
-- The IPC frames of crates/weft-ipc-types/src/lib.rs, and how crates/weft-compositor/src/appd_ipc.rs
-- takes them off a byte stream. MessagePack is rmp-serde's: an interface, `Codec`.
pub mod RoundTrip
pub mod Turn
pub mod Stream
mod Examples
use weft_os.Base.{
  ℕ, zero, suc, ◌+◌, ◌*◌, ◌/◌, ◌%◌, ◌^◌, ◌<◌, ◌≡◌, Bool, true, false, List, [], ◌∷◌, ◌++◌, Option,
  none, some, Text, All, Result, ok, err, ltb, ◌==◌, if◌then◌else◌, length, take, drop,
}

-- `to_vec_named` and `from_slice` at one message type. What is encoded decodes to what it was, and
-- the encoding is bytes.
pub record Codec (M : Type 0) : Type 0 where
  pub to_vec : M → Option Text
  pub from_slice : Text → Option M
  pub from_slice-to_vec : (m : M) (body : Text) → to_vec m ≡ some body → from_slice body ≡ some m

abbrev pub max_frame_len : ℕ
max_frame_len = 4 * 1024 * 1024

-- `(len as u32).to_le_bytes()`
unfoldable pub to_le_bytes : ℕ → Text
to_le_bytes n =
    let w = n % 2 ^ 32 in w % 256 ∷ w / 256 % 256 ∷ w / 65536 % 256 ∷ w / 16777216 % 256 ∷ []

-- `u32::from_le_bytes` of the first four bytes
unfoldable pub from_le_bytes : Text → ℕ
from_le_bytes (a ∷ b ∷ c ∷ d ∷ rest) = a + 256 * b + 65536 * c + 16777216 * d
from_le_bytes short = 0

-- `encode::Error`, and the `assert!` on the length
pub data FrameEncodeError : Type 0 where
  serialize too_long_to_send : FrameEncodeError

pub data FrameDecodeError : Type 0 where
  too_short : FrameDecodeError
  too_long : ℕ → FrameDecodeError
  length_mismatch : ℕ → ℕ → FrameDecodeError
  deserialize : FrameDecodeError

encode_body : Option Text → Result FrameEncodeError Text
encode_body none = err serialize
encode_body (some body) =
    if ltb max_frame_len (length body)
    then err too_long_to_send
    else ok (to_le_bytes (length body) ++ body)

decoded : {M : Type 0} → Option M → Result FrameDecodeError M
decoded none = err deserialize
decoded (some m) = ok m

module _ {M : Type 0} (c : Codec M) where
  unfoldable pub frame_encode : M → Result FrameEncodeError Text
  unfolding encode_body
  frame_encode m = encode_body (c.to_vec m)

  unfoldable pub frame_decode : Text → Result FrameDecodeError M
  unfolding decoded
  frame_decode buf =
      let declared = from_le_bytes buf in
      let body = drop 4 buf in
      if ltb (length buf) 4
      then err too_short
      else if length body == declared
      then (if ltb max_frame_len declared
          then err (too_long declared)
          else decoded (c.from_slice body))
      else err (length_mismatch declared (length body))

-- One turn of the loop in `try_decode_frames`: too few bytes, a frame that ends the connection, or a
-- message and what follows it.
pub data Next (M : Type 0) : Type 0 where
  wait broken : Next M
  frame : M → Text → Next M

pub record Decoded (M : Type 0) : Type 0 where
  pub messages : List M
  pub rest : Text
  pub is_broken : Bool

pub push : {M : Type 0} → M → Decoded M → Decoded M
push m d = record d { messages = m ∷ d.messages }

next_of : {M : Type 0} → Text → Result FrameDecodeError M → Next M
next_of rest (ok m) = frame m rest
next_of rest (err e) = broken

module _ {M : Type 0} (c : Codec M) where
  unfoldable pub next_frame : Text → Next M
  unfolding next_of
  next_frame buf =
      let declared = from_le_bytes buf in
      if ltb (length buf) 4
      then wait
      else if ltb max_frame_len declared
      then broken
      else if ltb (length buf) (4 + declared)
      then wait
      else next_of (drop (4 + declared) buf) (frame_decode c (take (4 + declared) buf))

  -- the loop; each turn that goes on takes four bytes or more
  decode_loop : ℕ → Text → Decoded M
  unfolding push
  decode_loop zero buf = record { messages = []; rest = buf; is_broken = false }
  decode_loop (suc fuel) buf = elim (next_frame buf) [
    | wait ↦ record { messages = []; rest = buf; is_broken = false }
    | broken ↦ record { messages = []; rest = buf; is_broken = true }
    | frame m rest ↦ push m (decode_loop fuel rest)
  ]

  unfoldable pub try_decode_frames : Text → Decoded M
  unfolding decode_loop
  try_decode_frames buf = decode_loop (length buf) buf
