-- ===== src/Registry/Tokens.antt =====
-- The comparison of tokens that takes the same time on every input of one length.
use Prim.Native.Nat.{bit_or, bit_xor}
use weft_os.Base.{
  ℕ, ◌≡◌, refl, ◌↔◌, true, ◌&&◌, [], ◌∷◌, Text, ◌==◌, ==_iff, &&-eq-true, length, arith, subst,
}
use weft_os.Base.Bits.{bit_or-zero, bit_xor-zero, bit_xor_self}
use weft_os.Registry.{differences, tokens_match}

-- No difference was found only if there was none before and none on the way.
differences-zero :
    (acc : ℕ) (s t : Text) → length s ≡ length t → differences acc s t ≡ 0 → (acc ≡ 0) × (s ≡ t)
unfolding differences
differences-zero acc [] [] l h = (h, refl)
differences-zero acc [] (b ∷ t) l h = absurd (omega arith)
differences-zero acc (a ∷ s) [] l h = absurd (omega arith)
differences-zero acc (a ∷ s) (b ∷ t) l h =
    let (none_yet, same) = differences-zero (bit_or acc (bit_xor a b)) s t (omega arith) h in
    let (before, equal) = bit_or-zero acc (bit_xor a b) none_yet in
    (before, cc (bit_xor-zero a b equal, same))

differences_self : (s : Text) → differences 0 s s ≡ 0
unfolding differences
differences_self [] = refl
differences_self (a ∷ s) = rw (bit_xor_self a) (differences_self s)

-- The comparison of tokens, over every byte with `|` and `^`, is equality.
pub tokens_match_iff : (s t : Text) → (tokens_match s t ≡ true) ↔ (s ≡ t)
unfolding tokens_match
tokens_match_iff s t = (
  λ h.
      let (same_length, no_difference) =
        &&-eq-true (length s == length t) (differences 0 s t == 0) h in
      (differences-zero 0 s t ((==_iff (length s) (length t)).0 same_length)
        ((==_iff (differences 0 s t) 0).0 no_difference)).1,
  λ e.
      subst (λ u. (length s == length u && differences 0 s u == 0) ≡ true) e
        (ground (arith, differences_self s)),
)
