-- ===== src/Frame/Examples.antt =====
-- A codec of one-byte messages, and the theorems about frames at it.
use weft_os.Base.{ℕ, ◌≡◌, refl, false, [], ◌∷◌, ◌++◌, Option, none, some, Text, ok}
use weft_os.Frame.{
  Codec, frame_encode, frame_decode, next_frame, to_le_bytes, from_le_bytes, try_decode_frames,
}
use weft_os.Frame.RoundTrip.{frame_decode-frame_encode}
use weft_os.Frame.Stream.{
  try_decode_frames-append, then_decode, nothing, sends, try_decode_frames-sent,
}

one_byte : Text → Option ℕ
one_byte (b ∷ []) = some b
one_byte s = none

one_byte-encoded : (m : ℕ) (body : Text) → some (m ∷ []) ≡ some body → one_byte body ≡ some m
unfolding one_byte
one_byte-encoded m [] h = cc
one_byte-encoded m (b ∷ []) h = cc
one_byte-encoded m (b ∷ b' ∷ body) h = cc

abbrev bytes : Codec ℕ
bytes = record {
  to_vec = λ m. some (m ∷ []);
  from_slice = one_byte;
  from_slice-to_vec = one_byte-encoded;
}

abbrev seven : Text
seven = 1 ∷ 0 ∷ 0 ∷ 0 ∷ 7 ∷ []

abbrev part : Text
part = 1 ∷ 0 ∷ 0 ∷ []

frame_decode-frame_encode_example : frame_decode bytes seven ≡ ok 7
unfolding frame_encode to_le_bytes
frame_decode-frame_encode_example = frame_decode-frame_encode bytes 7 seven refl

try_decode_frames-append_example :
    try_decode_frames bytes (part ++ (0 ∷ 7 ∷ []))
    ≡ then_decode bytes (try_decode_frames bytes part) (0 ∷ 7 ∷ [])
unfolding try_decode_frames next_frame
try_decode_frames-append_example = try_decode_frames-append bytes part (0 ∷ 7 ∷ []) refl

try_decode_frames-sent_example :
    try_decode_frames bytes ((seven ++ []) ++ part)
    ≡ record { messages = 7 ∷ []; rest = part; is_broken = false }
unfolding frame_encode to_le_bytes next_frame
try_decode_frames-sent_example = try_decode_frames-sent bytes part (sends refl nothing) refl

-- Two messages and part of a third.
two_and_a_part :
    try_decode_frames bytes (seven ++ (seven ++ part))
    ≡ record { messages = 7 ∷ 7 ∷ []; rest = part; is_broken = false }
unfolding try_decode_frames next_frame from_le_bytes frame_decode one_byte
two_and_a_part = refl
