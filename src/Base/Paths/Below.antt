-- ===== src/Base/Paths/Below.antt =====
-- Which paths lie below another, by their bytes, and paths in one directory.
use Prim.Native.Nat.{ℕ}
use mathlib.Core.Path.{◌≡◌, refl, sym}
use mathlib.Core.Bool.{Bool, true, false, ◌&&◌}
use mathlib.Core.List.{[], ◌∷◌, ◌++◌, append_assoc}
use native.Mathlib.Omega.{arith}
use weft_os.Base.Tests.{◌==◌}
use weft_os.Base.Lists.{is_empty}
use weft_os.Base.Str.{Text, codes, starts_with, ends_with, text_eq}
use weft_os.Base.Paths.{join, separator}

-- `q` is `p`, or `p`, a separator and more.
unfoldable pub within : Text → Text → Bool
within [] [] = true
within [] (b ∷ q) = b == b'/'
within (a ∷ p) [] = false
within (a ∷ p) (b ∷ q) = (a == b) && within p q

pub within-append : (c p q : Text) → within (c ++ p) (c ++ q) ≡ within p q
unfolding within
within-append [] p q = refl
within-append (b ∷ c) p q = ground (arith, within-append c p q)

pub within-text_eq : (p q : Text) → within p q ≡ false → text_eq p q ≡ false
unfolding within text_eq
within-text_eq [] [] h = cc
within-text_eq [] (b ∷ q) h = refl
within-text_eq (a ∷ p) [] h = refl
within-text_eq (a ∷ p) (b ∷ q) h = ground (arith, within-text_eq p q)

-- the path of `x` in `store`, where `x` is relative
abbrev pub spot : Text → Text → Text
spot store x = store ++ (separator store ++ x)

pub within-spot : (store p q : Text) → within (spot store p) (spot store q) ≡ within p q
within-spot store p q = rw (within-append store, within-append (separator store)) refl

pub ends_with-append :
    (c : ℕ) (p : Text) (b : ℕ) (x : Text) → ends_with c (p ++ (b ∷ x)) ≡ ends_with c (b ∷ x)
unfolding ends_with
ends_with-append c [] b x = refl
ends_with-append c (a ∷ []) b x = refl
ends_with-append c (a ∷ a' ∷ p) b x = ends_with-append c (a' ∷ p) b x

is_empty-append : (p : Text) (b : ℕ) (x : Text) → is_empty (p ++ (b ∷ x)) ≡ false
is_empty-append [] b x = refl
is_empty-append (a ∷ p) b x = refl

separator-spot :
    (store : Text) (b : ℕ) (x : Text)
    → ends_with b'/' (b ∷ x) ≡ false
    → separator (spot store (b ∷ x)) ≡ codes "/"
separator-spot store b x e =
    rw
      (
        sym (append_assoc store (separator store) (b ∷ x)),
        is_empty-append (store ++ separator store) b x,
        ends_with-append b'/' (store ++ separator store) b x,
        e,
      )
      refl

-- A name joined to a path in `store` that does not end in a separator.
pub join-spot :
    (store : Text) (b : ℕ) (x n : Text)
    → ends_with b'/' (b ∷ x) ≡ false
    → starts_with b'/' n ≡ false
    → join (spot store (b ∷ x)) n ≡ spot store ((b ∷ x) ++ (b'/' ∷ n))
join-spot store b x n e h =
    rw (h, separator-spot store b x e, append_assoc store, append_assoc (separator store)) refl
