-- ===== src/Frame/Stream.antt =====
-- `try_decode_frames` over a stream that arrives in pieces.
use mathlib.Core.List.{append_assoc}
use weft_os.Base.{
  ℕ, zero, suc, ◌+◌, ◌≤◌, ◌≡◌, ◌⊎◌, refl, sym, ◌∙◌, ap, true, false, List, [], ◌∷◌, ◌++◌, Text, ok,
  length, length-append, take, drop, drop-append, take-append, arith, inl, inr, subst,
}
use weft_os.Frame.{
  Codec, from_le_bytes, to_le_bytes, frame_encode, Next, wait, broken, frame, Decoded, push,
  next_of, next_frame, decode_loop, try_decode_frames,
}
use weft_os.Frame.RoundTrip.{
  frame_encode-eq-ok, frame_decode-frame_encode, from_le_bytes-to_le_bytes, length-to_le_bytes,
}
use weft_os.Frame.Turn.{extended, next_frame-append, next_frame_shorter}

pub Next-cases :
    {M : Type 0} (t : Next M)
    → (t ≡ wait) ⊎ (t ≡ broken) ⊎ ((m : M) × (rest : Text) × (t ≡ frame m rest))
Next-cases wait = inl refl
Next-cases broken = inr (inl refl)
Next-cases (frame m rest) = inr (inr (m, rest, refl))

module _ {M : Type 0} (c : Codec M) where
  -- What the loop does with the outcome of a turn.
  abbrev pub after_turn : Text → Next M → Decoded M
  after_turn buf wait = record { messages = []; rest = buf; is_broken = false }
  after_turn buf broken = record { messages = []; rest = buf; is_broken = true }
  after_turn buf (frame m rest) = push m (try_decode_frames c rest)

  empty_waits : next_frame c [] ≡ wait
  unfolding next_frame
  empty_waits = refl

  -- More fuel than bytes changes nothing.
  decode_loop_fuel :
      (f g : ℕ) (buf : Text)
      → length buf ≤ f
      → length buf ≤ g
      → decode_loop c f buf ≡ decode_loop c g buf
  unfolding decode_loop
  decode_loop_fuel zero zero buf h k = refl
  decode_loop_fuel zero (suc g) [] h k = rw (empty_waits, decode_loop)
  decode_loop_fuel zero (suc g) (b ∷ buf) h k = absurd (omega arith)
  decode_loop_fuel (suc f) zero [] h k = rw (empty_waits, decode_loop)
  decode_loop_fuel (suc f) zero (b ∷ buf) h k = absurd (omega arith)
  decode_loop_fuel (suc f) (suc g) buf h k = elim (Next-cases (next_frame c buf)) [
    | inl e ↦ rw (e, decode_loop)
    | inr (inl e) ↦ rw (e, decode_loop)
    | inr (inr (m, rest, e)) ↦
        rw (e, decode_loop)
          (ap (push m) (
            decode_loop_fuel f g rest (omega (arith, next_frame_shorter c buf rest m e))
              (omega (arith, next_frame_shorter c buf rest m e))))
  ]

  -- The loop needs no more fuel than it is given: it is its own next turn.
  try_decode_frames_lem : (buf : Text) → try_decode_frames c buf ≡ after_turn buf (next_frame c buf)
  try_decode_frames_lem [] = rw empty_waits (unfold try_decode_frames in refl)
  try_decode_frames_lem (b ∷ buf) = elim (Next-cases (next_frame c (b ∷ buf))) [
    | inl e ↦ rw e (unfold try_decode_frames in rw (e, decode_loop))
    | inr (inl e) ↦ rw e (unfold try_decode_frames in rw (e, decode_loop))
    | inr (inr (m, rest, e)) ↦ rw e (
        unfold try_decode_frames in
        rw (e, decode_loop)
          (ap (push m) (
            decode_loop_fuel (length buf) (length rest) rest
              (omega (arith, next_frame_shorter c (b ∷ buf) rest m e)) (omega arith))))
  ]

-- What is decoded from the pieces, taken together.
abbrev pub then_decode : {M : Type 0} → Codec M → Decoded M → Text → Decoded M
then_decode c d b =
    let e = try_decode_frames c (d.rest ++ b) in
    record { messages = d.messages ++ e.messages; rest = e.rest; is_broken = e.is_broken }

taken : (f s : Text) (n : ℕ) → length f ≡ n → take n (f ++ s) ≡ f
taken f s n h = subst (λ k. take k (f ++ s) ≡ f) h (take-append f s)

dropped : (f s : Text) (n : ℕ) → length f ≡ n → drop n (f ++ s) ≡ s
dropped f s n h = subst (λ k. drop k (f ++ s) ≡ s) h (drop-append f s)

module _ {M : Type 0} (c : Codec M) where
  push-then_decode :
      (m : M) (d : Decoded M) (b : Text) → push m (then_decode c d b) ≡ then_decode c (push m d) b
  unfolding push
  push-then_decode m d b = refl

  waits :
      (a : Text)
      → next_frame c a ≡ wait
      → try_decode_frames c a ≡ record { messages = []; rest = a; is_broken = false }
  waits a e = try_decode_frames_lem c a ∙ ap (after_turn c a) e

  breaks :
      (a : Text)
      → next_frame c a ≡ broken
      → try_decode_frames c a ≡ record { messages = []; rest = a; is_broken = true }
  breaks a e = try_decode_frames_lem c a ∙ ap (after_turn c a) e

  takes :
      (a rest : Text) (m : M)
      → next_frame c a ≡ frame m rest
      → try_decode_frames c a ≡ push m (try_decode_frames c rest)
  takes a rest m e = try_decode_frames_lem c a ∙ ap (after_turn c a) e

  is_broken-push : (m : M) (d : Decoded M) → (push m d).is_broken ≡ d.is_broken
  unfolding push
  is_broken-push m d = refl

  chunks_fuel :
      (f : ℕ) (a b : Text)
      → length a ≤ f
      → (try_decode_frames c a).is_broken ≡ false
      → try_decode_frames c (a ++ b) ≡ then_decode c (try_decode_frames c a) b
  chunks_fuel zero [] b h sound = rw (waits [] (empty_waits c)) refl
  chunks_fuel zero (x ∷ a) b h sound = absurd (omega arith)
  chunks_fuel (suc f) a b h sound = elim (Next-cases (next_frame c a)) [
    | inl e ↦ rw (waits a e) refl
    | inr (inl e) ↦ cc (ap (λ (d : Decoded M). d.is_broken) (breaks a e), sound)
    | inr (inr (m, rest, e)) ↦
        let onward = next_frame-append c a b (λ w. cc) ∙ ap (extended b) e in
        let still =
          sym (is_broken-push m (try_decode_frames c rest))
          ∙ ap (λ (d : Decoded M). d.is_broken) (sym (takes a rest m e))
          ∙ sound in
        takes (a ++ b) (rest ++ b) m onward
        ∙ ap (push m) (chunks_fuel f rest b (omega (arith, next_frame_shorter c a rest m e)) still)
        ∙ push-then_decode m (try_decode_frames c rest) b
        ∙ ap (λ d. then_decode c d b) (sym (takes a rest m e))
  ]

  -- However appd's bytes are split into reads, the same messages come out: as long as the stream is
  -- not broken, decoding what has arrived and then the rest behind what is left over is decoding all
  -- at once.
  pub try_decode_frames-append :
      (a b : Text)
      → (try_decode_frames c a).is_broken ≡ false
      → try_decode_frames c (a ++ b) ≡ then_decode c (try_decode_frames c a) b
  try_decode_frames-append a b sound = chunks_fuel (length a) a b (omega arith) sound

  -- The bytes of messages that were encoded one after the other.
  pub data Sent : List M → Text → Type 0 where
    nothing : Sent [] []
    sends :
        {m : M} {f : Text} {ms : List M} {s : Text}
        → frame_encode c m ≡ ok f
        → Sent ms s
        → Sent (m ∷ ms) (f ++ s)

  next_frame-frame :
      (m : M) (f s : Text) → frame_encode c m ≡ ok f → next_frame c (f ++ s) ≡ frame m s
  unfolding next_frame next_of
  next_frame-frame m f s h =
      let (body, encoded, e, small) = frame_encode-eq-ok c m f h in
      let size : length f ≡ 4 + length body = omega (
        arith,
        ap length e,
        length-append (to_le_bytes (length body)) body,
        length-to_le_bytes (length body),
      ) in
      let header : from_le_bytes (f ++ s) ≡ length body =
        ap from_le_bytes (ap (λ g. g ++ s) e ∙ append_assoc (to_le_bytes (length body)) body s)
        ∙ from_le_bytes-to_le_bytes (length body) (body ++ s) (omega arith) in
      ground (
        arith,
        header,
        size,
        length-append f s,
        frame_decode-frame_encode c m f h,
        taken f s (4 + length body) size,
        dropped f s (4 + length body) size,
      )

  -- The stream of encoded messages, followed by part of a frame, decodes to those messages, and the
  -- part is kept for the next read.
  pub try_decode_frames-sent :
      {ms : List M} {s : Text} (tail : Text)
      → Sent ms s
      → next_frame c tail ≡ wait
      → try_decode_frames c (s ++ tail) ≡ record { messages = ms; rest = tail; is_broken = false }
  try_decode_frames-sent tail nothing w = waits tail w
  try_decode_frames-sent tail (sends {m} {f} {ms} {s} h more) w = rw (append_assoc f s tail) (
      takes (f ++ (s ++ tail)) (s ++ tail) m (next_frame-frame m f (s ++ tail) h)
      ∙ ap (push m) (try_decode_frames-sent tail more w)
      ∙ (unfold push in refl))
