-- ===== src/Base/Str.antt =====
-- Rust's `&str` as the list of its bytes, with the string methods that the crates use.
use Prim.Native.Nat.{ℕ, suc, ◌+◌}
use Prim.Native.Char.{code}
use Prim.Native.String.{String}
use mathlib.Core.Path.{◌≡◌, refl}
use mathlib.Core.Logic.{◌↔◌, inl, inr}
use mathlib.Core.Bool.{Bool, true, false, ◌&&◌, ◌||◌}
use mathlib.Core.List.{List, [], ◌∷◌, ◌++◌}
use mathlib.Core.Option.{Option, none, some}
use native.Mathlib.Omega.{arith}
use weft_os.Base.Tests.{◌==◌, leb, if◌then◌else◌, Bool-cases}
use weft_os.Base.Lists.{length, all}

abbrev pub Text : Type 0
Text = List ℕ

-- The bytes of an ASCII literal. `String` has its own `[]` and `∷`.
abbrev pub codes : String → Text
codes String.[] = []
codes (String.◌∷◌ c s) = code c ∷ codes s

-- `a == b` on `str`
unfoldable pub text_eq : Text → Text → Bool
text_eq [] [] = true
text_eq (a ∷ s) (b ∷ t) = (a == b) && text_eq s t
text_eq _ _ = false

pub text_eq→eq : (s t : Text) → text_eq s t ≡ true → s ≡ t
unfolding text_eq
text_eq→eq [] [] h = refl
text_eq→eq [] (b ∷ t) h = cc
text_eq→eq (a ∷ s) [] h = cc
text_eq→eq (a ∷ s) (b ∷ t) h = ground (arith, text_eq→eq s t)

pub text_eq_refl : (s : Text) → text_eq s s ≡ true
unfolding text_eq
text_eq_refl [] = refl
text_eq_refl (a ∷ s) = ground (arith, text_eq_refl s)

pub text_eq_iff : (s t : Text) → (text_eq s t ≡ true) ↔ (s ≡ t)
text_eq_iff s t = (text_eq→eq s t, λ e. ground (arith, text_eq_refl s))

-- `str::strip_prefix`
unfoldable pub strip_prefix : Text → Text → Option Text
strip_prefix [] s = some s
strip_prefix (a ∷ p) [] = none
strip_prefix (a ∷ p) (b ∷ s) = if a == b then strip_prefix p s else none

-- `str::starts_with` at one ASCII character, and `str::ends_with`
unfoldable pub starts_with : ℕ → Text → Bool
starts_with c [] = false
starts_with c (b ∷ s) = b == c

unfoldable pub ends_with : ℕ → Text → Bool
ends_with c [] = false
ends_with c (b ∷ []) = b == c
ends_with c (b ∷ b' ∷ s) = ends_with c (b' ∷ s)

-- `u8::is_ascii_digit`, `u8::is_ascii_lowercase`
abbrev pub is_digit : ℕ → Bool
is_digit b = leb b'0' b && leb b b'9'

abbrev pub is_lowercase : ℕ → Bool
is_lowercase b = leb b'a' b && leb b b'z'

pub strip_prefix-append : (p s : Text) → strip_prefix p (p ++ s) ≡ some s
unfolding strip_prefix
strip_prefix-append [] s = refl
strip_prefix-append (a ∷ p) s = ground (arith, strip_prefix-append p s)

pub strip_prefix-eq-some : (p s r : Text) → strip_prefix p s ≡ some r → s ≡ p ++ r
unfolding strip_prefix
strip_prefix-eq-some [] s r h = ground arith
strip_prefix-eq-some (a ∷ p) [] r h = cc
strip_prefix-eq-some (a ∷ p) (b ∷ s) r h = ground (arith, strip_prefix-eq-some p s r)

-- `str::split` at one ASCII character: the pieces between its occurrences, at least one.
unfoldable pub push_front : ℕ → List Text → List Text
push_front b [] = (b ∷ []) ∷ []
push_front b (piece ∷ pieces) = (b ∷ piece) ∷ pieces

unfoldable pub split : ℕ → Text → List Text
unfolding push_front
split c [] = [] ∷ []
split c (b ∷ s) = let rest = split c s in if b == c then [] ∷ rest else push_front b rest

-- A predicate on the bytes of every piece holds of every byte but the separators.
all-push_front :
    (p : ℕ → Bool) (b : ℕ) (ts : List Text)
    → all (all p) (push_front b ts) ≡ true
    → (p b ≡ true) × (all (all p) ts ≡ true)
unfolding push_front all
all-push_front p b [] h = ground arith
all-push_front p b (t ∷ ts) h = ground arith

pub all-split :
    (p : ℕ → Bool) (c : ℕ) (s : Text)
    → all (all p) (split c s) ≡ true
    → all (λ b. p b || b == c) s ≡ true
unfolding split all
all-split p c [] h = refl
all-split p c (b ∷ s) h = elim (Bool-cases (b == c)) [
  | inl e ↦ ground (arith, all-split p c s)
  | inr e ↦ ground (arith, all-push_front p b (split c s), all-split p c s)
]

-- The pieces and their separators are the whole text.
abbrev pub joined_length : List Text → ℕ
joined_length [] = 0
joined_length (t ∷ ts) = length t + 1 + joined_length ts

joined_length-push_front :
    (b c : ℕ) (s : Text)
    → joined_length (push_front b (split c s)) ≡ suc (joined_length (split c s))
unfolding push_front split
joined_length-push_front b c [] = omega arith
joined_length-push_front b c (a ∷ s) = elim (Bool-cases (a == c)) [
  | inl e ↦ rw (e, push_front) (omega arith)
  | inr e ↦ rw e (go (split c s))
]
  where
    go :
        (ts : List Text)
        → joined_length (push_front b (push_front a ts)) ≡ suc (joined_length (push_front a ts))
    go [] = omega arith
    go (t ∷ ts) = omega arith

pub joined_length-split : (c : ℕ) (s : Text) → joined_length (split c s) ≡ length s + 1
unfolding split
joined_length-split c [] = omega arith
joined_length-split c (b ∷ s) =
    ground (arith, joined_length-split c s, joined_length-push_front b c s)
