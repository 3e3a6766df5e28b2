-- ===== src/Base/Spaces.antt =====
-- `str::trim`, as far as white space is ASCII, and the order of `str`.
use Prim.Native.Nat.{ℕ}
use mathlib.Core.Path.{◌≡◌, refl}
use mathlib.Core.Bool.{Bool, true, false, ◌&&◌, ◌||◌, not}
use mathlib.Core.List.{[], ◌∷◌}
use native.Mathlib.Omega.{arith}
use weft_os.Base.Tests.{◌==◌, leb, ltb, if◌then◌else◌}
use weft_os.Base.Lists.{all, is_empty}
use weft_os.Base.Str.{Text}

abbrev pub is_space : ℕ → Bool
is_space b = (leb 9 b && leb b 13) || b == b' '

unfoldable pub trim_start : Text → Text
trim_start [] = []
trim_start (b ∷ s) = let rest = trim_start s in if is_space b then rest else b ∷ s

unfoldable pub trim_end : Text → Text
trim_end [] = []
trim_end (b ∷ s) = let rest = trim_end s in if is_space b && is_empty rest then [] else b ∷ rest

unfoldable pub trim : Text → Text
unfolding trim_start trim_end
trim s = trim_end (trim_start s)

-- the order of `str`
unfoldable pub text_less : Text → Text → Bool
text_less [] [] = false
text_less [] (b ∷ t) = true
text_less (a ∷ s) [] = false
text_less (a ∷ s) (b ∷ t) = let rest = text_less s t in ltb a b || (a == b && rest)

-- No white space.
abbrev pub is_clean : Text → Bool
is_clean c = all (λ b. not (is_space b)) c

trim_start-clean : (c : Text) → is_clean c ≡ true → trim_start c ≡ c
unfolding trim_start all
trim_start-clean [] h = refl
trim_start-clean (b ∷ c) h = ground arith

trim_end-clean : (c : Text) → is_clean c ≡ true → trim_end c ≡ c
unfolding trim_end all
trim_end-clean [] h = refl
trim_end-clean (b ∷ c) h = rw (trim_end-clean c (ground arith)) (ground arith)

pub trim-clean : (c : Text) → is_clean c ≡ true → trim c ≡ c
unfolding trim
trim-clean c h = rw (trim_start-clean c h) (trim_end-clean c h)
