-- ===== src/Base/Paths/Join.antt =====
-- The components of a path that was joined from another and a name.
use Prim.Native.Nat.{ℕ}
use mathlib.Core.Path.{◌≡◌, refl, sym, ap, subst}
use mathlib.Core.Logic.{inl, inr}
use mathlib.Core.Bool.{true, false, not}
use mathlib.Core.List.{List, [], ◌∷◌, ◌++◌, append_assoc, append-nil}
use native.Mathlib.Omega.{arith}
use weft_os.Base.Tests.{◌==◌, Bool-cases}
use weft_os.Base.Lists.{all, is_empty}
use weft_os.Base.Str.{Text, codes, text_eq, push_front, split, starts_with, ends_with}
use weft_os.Base.Paths.{
  normal, add_piece, pieces, relative_pieces, components, join, IsName, is_plain,
}

push_front-append :
    (b c : ℕ) (x : Text) (q : List Text)
    → push_front b (split c x ++ q) ≡ push_front b (split c x) ++ q
unfolding push_front split
push_front-append b c [] q = refl
push_front-append b c (a ∷ x) q = elim (Bool-cases (a == c)) [
  | inl e ↦ rw e refl
  | inr e ↦ rw e (two (split c x))
]
  where
    two :
        (ts : List Text) → push_front b (push_front a ts ++ q) ≡ push_front b (push_front a ts) ++ q
    two [] = refl
    two (t ∷ ts) = refl

split-no_separator : (c : ℕ) (r : Text) → all (λ b. not (b == c)) r ≡ true → split c r ≡ r ∷ []
unfolding split push_front all
split-no_separator c [] h = refl
split-no_separator c (b ∷ r) h = rw (split-no_separator c r (ground arith)) (ground arith)

split-append :
    (c : ℕ) (x r : Text)
    → all (λ b. not (b == c)) r ≡ true
    → split c (x ++ (c ∷ r)) ≡ split c x ++ r ∷ []
unfolding split
split-append c [] r h = rw (split-no_separator c r h) (ground arith)
split-append c (b ∷ x) r h = rw (split-append c x r h) (elim (Bool-cases (b == c)) [
  | inl e ↦ rw e refl
  | inr e ↦ rw e (push_front-append b c x (r ∷ []))
])

pieces-append : (ps qs : List Text) → pieces (ps ++ qs) ≡ pieces ps ++ pieces qs
unfolding pieces add_piece
pieces-append [] qs = refl
pieces-append (p ∷ ps) qs = rw (pieces-append ps qs) (ground arith)

pieces-name : (n : Text) → is_plain n ≡ true → pieces (n ∷ []) ≡ normal n ∷ []
unfolding pieces add_piece
pieces-name n h = ground arith

relative_pieces-append :
    (p : Text) (ps : List Text) (n : Text)
    → is_plain n ≡ true
    → relative_pieces ((p ∷ ps) ++ n ∷ []) ≡ relative_pieces (p ∷ ps) ++ normal n ∷ []
unfolding relative_pieces
relative_pieces-append p ps n h = elim (Bool-cases (text_eq p (codes "."))) [
  | inl e ↦ rw (e, pieces-append ps (n ∷ []), pieces-name n h) refl
  | inr e ↦ rw (e, pieces-append ps (n ∷ []), pieces-name n h) (ground arith)
]

split-ne-nil : (c : ℕ) (s : Text) → is_empty (split c s) ≡ false
unfolding split
split-ne-nil c [] = refl
split-ne-nil c (b ∷ s) = elim (Bool-cases (b == c)) [
  | inl e ↦ rw e refl
  | inr e ↦ rw e (go (split c s))
]
  where
    go : (ts : List Text) → is_empty (push_front b ts) ≡ false
    go [] = unfold push_front in refl
    go (t ∷ ts) = unfold push_front in refl

relative_pieces-split :
    (c : ℕ) (s n : Text)
    → is_plain n ≡ true
    → relative_pieces (split c s ++ n ∷ []) ≡ relative_pieces (split c s) ++ normal n ∷ []
relative_pieces-split c s n h = go (split c s) (split-ne-nil c s)
  where
    go :
        (ps : List Text)
        → is_empty ps ≡ false
        → relative_pieces (ps ++ n ∷ []) ≡ relative_pieces ps ++ normal n ∷ []
    go [] e = cc
    go (p ∷ ps) e = relative_pieces-append p ps n h

-- A name after a separator is one more component.
components-separator :
    (b : ℕ) (p n : Text)
    → IsName n
    → components ((b ∷ p) ++ (b'/' ∷ n)) ≡ components (b ∷ p) ++ normal n ∷ []
unfolding components starts_with
components-separator b p n h = elim (Bool-cases (b == b'/')) [
  | inl e ↦
      rw
        (
          e,
          split-append b'/' (b ∷ p) n h.1,
          pieces-append (split b'/' (b ∷ p)) (n ∷ []),
          pieces-name n h.0,
        )
        refl
  | inr e ↦ rw (e, split-append b'/' (b ∷ p) n h.1, relative_pieces-split b'/' (b ∷ p) n h.0) refl
]

no_slash : (n : Text) → all (λ b. not (b == b'/')) n ≡ true → starts_with b'/' n ≡ false
unfolding starts_with all
no_slash [] h = refl
no_slash (b ∷ n) h = ground arith

components-name : (n : Text) → IsName n → components n ≡ normal n ∷ []
unfolding components relative_pieces
components-name n h = rw (no_slash n h.1, split-no_separator b'/' n h.1) (ground arith)

ends_with-last :
    (c : ℕ) (b : ℕ) (p : Text) → ends_with c (b ∷ p) ≡ true → (q : Text) × (b ∷ p ≡ q ++ c ∷ [])
unfolding ends_with
ends_with-last c b [] h = ([], ground arith)
ends_with-last c b (b' ∷ p) h = let (q, e) = ends_with-last c b' p h in (b ∷ q, ap (◌∷◌ b) e)

relative_pieces-empty :
    (ps : List Text) → is_empty ps ≡ false → relative_pieces (ps ++ [] ∷ []) ≡ relative_pieces ps
unfolding relative_pieces text_eq
relative_pieces-empty [] h = cc
relative_pieces-empty (p ∷ ps) h = elim (Bool-cases (text_eq p (codes "."))) [
  | inl e ↦ rw (e, pieces-append ps ([] ∷ []), append-nil) refl
  | inr e ↦ rw (e, pieces-append ps ([] ∷ []), append-nil) refl
]

-- A separator at the end of a path adds nothing.
components-trailing : (b : ℕ) (q : Text) → components ((b ∷ q) ++ b'/' ∷ []) ≡ components (b ∷ q)
unfolding components starts_with text_eq
components-trailing b q = elim (Bool-cases (b == b'/')) [
  | inl e ↦
      rw
        (
          e,
          split-append b'/' (b ∷ q) [] (unfold all in refl),
          pieces-append (split b'/' (b ∷ q)) ([] ∷ []),
          append-nil,
        )
        refl
  | inr e ↦
      rw (e, split-append b'/' (b ∷ q) [] (unfold all in refl))
        (relative_pieces-empty (split b'/' (b ∷ q)) (split-ne-nil b'/' (b ∷ q)))
]

components-root :
    (n : Text) → IsName n → components (codes "/" ++ n) ≡ components (codes "/") ++ normal n ∷ []
unfolding components starts_with text_eq
components-root n h =
    rw (split-append b'/' [] n h.1, pieces-append (split b'/' []) (n ∷ []), pieces-name n h.0)
      (unfold split in refl)

join-trailing :
    (q n : Text)
    → IsName n
    → components ((q ++ b'/' ∷ []) ++ n) ≡ components (q ++ b'/' ∷ []) ++ normal n ∷ []
join-trailing [] n h = components-root n h
join-trailing (b ∷ q) n h =
    rw (append_assoc (b ∷ q) (b'/' ∷ []) n, components-trailing b q) (components-separator b q n h)

join-ends :
    (z q n : Text)
    → z ≡ q ++ b'/' ∷ []
    → IsName n
    → components (z ++ n) ≡ components z ++ normal n ∷ []
join-ends z q n shape h =
    subst (λ z. components (z ++ n) ≡ components z ++ normal n ∷ []) (sym shape)
      (join-trailing q n h)

components-nil : components [] ≡ []
unfolding components starts_with split text_eq
components-nil = refl

-- Joining a name adds one component.
pub components-join :
    (p n : Text) → IsName n → components (join p n) ≡ components p ++ normal n ∷ []
components-join [] n h = rw (no_slash n h.1, components-nil) (components-name n h)
components-join (b ∷ p) n h = elim (Bool-cases (ends_with b'/' (b ∷ p))) [
  | inl e ↦
      let (q, shape) = ends_with-last b'/' b p e in
      rw (no_slash n h.1, e) (join-ends (b ∷ p) q n shape h)
  | inr e ↦ rw (no_slash n h.1, e) (components-separator b p n h)
]
