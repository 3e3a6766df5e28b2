-- ===== src/Frame/Turn.antt =====
-- One turn of the loop in `try_decode_frames`, and the fuel that it needs.
use weft_os.Base.{
  ℕ, zero, suc, ◌+◌, ◌≤◌, ◌≡◌, ◌≢◌, refl, ap, List, [], ◌∷◌, ◌++◌, Text, Result, ok, err, length,
  length-append, length-drop, take, drop, arith,
}
use weft_os.Frame.{
  Codec, FrameDecodeError, from_le_bytes, frame_decode, Next, wait, broken, frame, next_of,
  next_frame,
}

module _ {ℓ} {A : Type ℓ} where
  take-append_le : (k : ℕ) (xs ys : List A) → k ≤ length xs → take k (xs ++ ys) ≡ take k xs
  take-append_le zero xs ys h = refl
  take-append_le (suc k) [] ys h = absurd (omega arith)
  take-append_le (suc k) (x ∷ xs) ys h = ap (◌∷◌ x) (take-append_le k xs ys (omega arith))

  drop-append_le : (k : ℕ) (xs ys : List A) → k ≤ length xs → drop k (xs ++ ys) ≡ drop k xs ++ ys
  drop-append_le zero xs ys h = refl
  drop-append_le (suc k) [] ys h = absurd (omega arith)
  drop-append_le (suc k) (x ∷ xs) ys h = drop-append_le k xs ys (omega arith)

-- The header is in the first four bytes.
from_le_bytes-append : (a b : Text) → 4 ≤ length a → from_le_bytes (a ++ b) ≡ from_le_bytes a
unfolding from_le_bytes
from_le_bytes-append [] b h = absurd (omega arith)
from_le_bytes-append (w ∷ []) b h = absurd (omega arith)
from_le_bytes-append (w ∷ x ∷ []) b h = absurd (omega arith)
from_le_bytes-append (w ∷ x ∷ y ∷ []) b h = absurd (omega arith)
from_le_bytes-append (w ∷ x ∷ y ∷ z ∷ a) b h = refl

-- What a turn makes of more bytes behind its buffer.
abbrev pub extended : {M : Type 0} → Text → Next M → Next M
extended b wait = wait
extended b broken = broken
extended b (frame m rest) = frame m (rest ++ b)

extended-next_of :
    {M : Type 0} (rest b : Text) (r : Result FrameDecodeError M)
    → next_of (rest ++ b) r ≡ extended b (next_of rest r)
unfolding next_of
extended-next_of rest b (ok m) = refl
extended-next_of rest b (err e) = refl

module _ {M : Type 0} (c : Codec M) where
  -- A turn that does not wait does the same with more bytes behind.
  pub next_frame-append :
      (a b : Text) → next_frame c a ≢ wait → next_frame c (a ++ b) ≡ extended b (next_frame c a)
  unfolding next_frame
  next_frame-append a b h = ground (
    arith,
    length-append a b,
    from_le_bytes-append a b,
    take-append_le (4 + from_le_bytes a) a b,
    drop-append_le (4 + from_le_bytes a) a b,
    extended-next_of (drop (4 + from_le_bytes a) a) b
        (frame_decode c (take (4 + from_le_bytes a) a)),
  )

  next_of-rest :
      (rest r : Text) (e : Result FrameDecodeError M) (m : M)
      → next_of rest e ≡ frame m r
      → r ≡ rest
  unfolding next_of
  next_of-rest rest r (ok n) m h = cc
  next_of-rest rest r (err e) m h = cc

  -- A message takes its header at least.
  pub next_frame_shorter :
      (a rest : Text) (m : M) → next_frame c a ≡ frame m rest → length rest + 4 ≤ length a
  unfolding next_frame
  next_frame_shorter a rest m h = ground (
    arith,
    next_of-rest (drop (4 + from_le_bytes a) a) rest (frame_decode c (take (4 + from_le_bytes a) a))
        m,
    length-drop (4 + from_le_bytes a) a,
  )
