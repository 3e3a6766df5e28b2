-- ===== src/Package/Identity.antt =====
-- What a valid application ID is made of.
use weft_os.Base.{
  ℕ, ◌≡◌, refl, ◌≤◌, ◌+◌, Bool, true, false, ◌||◌, List, [], ◌∷◌, Text, all, length, leb, split,
  ◌==◌, is_digit, is_lowercase, arith, Bool-cases, inl, inr, all-split, joined_length,
  joined_length-split, push_front, &&-eq-true,
}
use weft_os.Package.{is_segment, is_valid_app_id}

abbrev pub is_id_byte : ℕ → Bool
is_id_byte b = (is_lowercase b || is_digit b) || b == b'.'

is_segment-bytes :
    (p : Text) → is_segment p ≡ true → all (λ b. is_lowercase b || is_digit b) p ≡ true
unfolding is_segment
is_segment-bytes [] h = cc
is_segment-bytes (b ∷ p) h = ground arith

all_segments-bytes :
    (ps : List Text)
    → all is_segment ps ≡ true
    → all (all (λ b. is_lowercase b || is_digit b)) ps ≡ true
unfolding all
all_segments-bytes [] h = refl
all_segments-bytes (p ∷ ps) h = ground (arith, all_segments-bytes ps, is_segment-bytes p)

segments-length :
    (ps : List Text) → all is_segment ps ≡ true → length ps + length ps ≤ joined_length ps
unfolding all is_segment
segments-length [] h = omega arith
segments-length ([] ∷ ps) h = cc
segments-length ((b ∷ p) ∷ ps) h = ground (arith, segments-length ps)

abbrev pub starts_lowercase : Text → Bool
starts_lowercase [] = false
starts_lowercase (b ∷ s) = is_lowercase b

starts_lowercase-push_front :
    (b : ℕ) (ps : List Text) → all is_segment (push_front b ps) ≡ true → is_lowercase b ≡ true
unfolding all push_front is_segment
starts_lowercase-push_front b [] h = ground arith
starts_lowercase-push_front b (p ∷ ps) h = ground arith

starts_lowercase-segments :
    (s : Text) → all is_segment (split b'.' s) ≡ true → starts_lowercase s ≡ true
unfolding split all is_segment
starts_lowercase-segments [] h = h
starts_lowercase-segments (b ∷ s) h = elim (Bool-cases (b == b'.')) [
  | inl e ↦ ground arith
  | inr e ↦ starts_lowercase-push_front b (split b'.' s) (ground arith)
]

-- A valid application ID consists of lowercase letters, digits and dots, so it holds no path
-- separator. It starts with a letter, so it is neither empty nor `.` nor `..`, and has at least
-- five bytes.
pub is_valid_app_id-bytes :
    (id : Text)
    → is_valid_app_id id ≡ true
    → (all is_id_byte id ≡ true) × (starts_lowercase id ≡ true) × 5 ≤ length id
unfolding is_valid_app_id
is_valid_app_id-bytes id h =
    let segments : all is_segment (split b'.' id) ≡ true =
      (&&-eq-true (leb 3 (length (split b'.' id))) (all is_segment (split b'.' id)) h).1 in
    (
      all-split (λ b. is_lowercase b || is_digit b) b'.' id
          (all_segments-bytes (split b'.' id) segments),
      starts_lowercase-segments id segments,
      ground (
        arith,
        (&&-eq-true (leb 3 (length (split b'.' id))) (all is_segment (split b'.' id)) h).0,
        segments-length (split b'.' id) segments,
        joined_length-split b'.' id,
      ),
    )
