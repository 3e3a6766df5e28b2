-- ===== src/Base/Paths.antt =====
-- Unix paths as `std::path` reads them.
pub mod Join
pub mod Compare
pub mod Below
use Prim.Native.Nat.{ℕ}
use mathlib.Core.Path.{◌≡◌, refl, ap}
use mathlib.Core.Logic.{◌≢◌, inl, inr}
use mathlib.Core.Bool.{Bool, true, false, ◌&&◌, ◌||◌, not}
use mathlib.Core.List.{List, [], ◌∷◌, ◌++◌, map}
use mathlib.Core.Option.{Option, none, some}
use native.Mathlib.Omega.{arith}
use weft_os.Base.Tests.{◌==◌, if◌then◌else◌, Bool-cases, Option-cases}
use weft_os.Base.Lists.{all, All, is_empty}
use weft_os.Base.Str.{Text, codes, text_eq, text_eq→eq, push_front, split, starts_with, ends_with}

pub data Component : Type 0 where
  root_dir cur_dir parent_dir : Component
  normal : Text → Component

-- A piece between separators: an empty one and `.` are dropped.
add_piece : Text → List Component → List Component
add_piece piece rest =
    if text_eq piece [] || text_eq piece (codes ".")
    then rest
    else if text_eq piece (codes "..")
    then parent_dir ∷ rest
    else normal piece ∷ rest

pieces : List Text → List Component
unfolding add_piece
pieces [] = []
pieces (p ∷ ps) = add_piece p (pieces ps)

-- A leading `.` of a relative path is kept.
relative_pieces : List Text → List Component
unfolding pieces
relative_pieces [] = []
relative_pieces (p ∷ ps) = if text_eq p (codes ".") then cur_dir ∷ pieces ps else pieces (p ∷ ps)

-- `Path::components`
unfoldable pub components : Text → List Component
unfolding relative_pieces
components s =
    if starts_with b'/' s then root_dir ∷ pieces (split b'/' s) else relative_pieces (split b'/' s)

component_eq : Component → Component → Bool
component_eq root_dir root_dir = true
component_eq cur_dir cur_dir = true
component_eq parent_dir parent_dir = true
component_eq (normal a) (normal b) = text_eq a b
component_eq _ _ = false

-- `Path::strip_prefix`: by components, the prefix first
unfoldable pub strip_components : List Component → List Component → Option (List Component)
unfolding component_eq
strip_components [] cs = some cs
strip_components (p ∷ ps) [] = none
strip_components (p ∷ ps) (c ∷ cs) = if component_eq p c then strip_components ps cs else none

-- The names of plain components.
unfoldable pub normal_names : List Component → Option (List Text)
normal_names [] = some []
normal_names (normal a ∷ cs) = elim (normal_names cs) [ none ↦ none | some rest ↦ some (a ∷ rest) ]
normal_names (c ∷ cs) = none

-- A name that is one component by itself.
abbrev pub is_plain : Text → Bool
is_plain name = not (text_eq name [] || text_eq name (codes ".") || text_eq name (codes ".."))

component_eq→eq : (a b : Component) → component_eq a b ≡ true → a ≡ b
unfolding component_eq
component_eq→eq root_dir root_dir h = refl
component_eq→eq cur_dir cur_dir h = refl
component_eq→eq parent_dir parent_dir h = refl
component_eq→eq (normal a) (normal b) h = ap normal (text_eq→eq a b h)
component_eq→eq a b h = ground arith

pub strip_components-eq-some :
    (ps cs rest : List Component) → strip_components ps cs ≡ some rest → cs ≡ ps ++ rest
unfolding strip_components
strip_components-eq-some [] cs rest h = ground arith
strip_components-eq-some (p ∷ ps) [] rest h = cc
strip_components-eq-some (p ∷ ps) (c ∷ cs) rest h =
    ground (arith, component_eq→eq p c, strip_components-eq-some ps cs rest)

none-ne-some : {names : List Text} → ◌≢◌ {A = Option (List Text)} none (some names)
none-ne-some h = cc

some-injective : {xs ys : List Text} → ◌≡◌ {A = Option (List Text)} (some xs) (some ys) → xs ≡ ys
some-injective h = cc

pub normal_names-eq-some :
    (cs : List Component) (names : List Text) → normal_names cs ≡ some names → cs ≡ map normal names
unfolding normal_names
normal_names-eq-some [] names h = ground arith
normal_names-eq-some (normal a ∷ cs) names h = elim (Option-cases (normal_names cs)) [
  | inl e ↦ absurd (none-ne-some (rw e at h))
  | inr (rest, e) ↦
      rw⁻¹ (some-injective (rw e at h)) (ap (◌∷◌ (normal a)) (normal_names-eq-some cs rest e))
]
normal_names-eq-some (c ∷ cs) names h = cc

-- `Path::join`: an absolute path replaces what it is joined to
abbrev pub separator : Text → Text
separator path = if is_empty path || ends_with b'/' path then [] else codes "/"

abbrev pub join : Text → Text → Text
join path s = if starts_with b'/' s then s else path ++ (separator path ++ s)

-- `Path::file_name`
last_name : List Component → Option Text
last_name [] = none
last_name (normal a ∷ []) = some a
last_name (c ∷ []) = none
last_name (c ∷ d ∷ cs) = last_name (d ∷ cs)

unfoldable pub file_name : Text → Option Text
unfolding last_name
file_name path = last_name (components path)

-- `==` on paths
components_eq : List Component → List Component → Bool
unfolding component_eq
components_eq [] [] = true
components_eq (c ∷ cs) (d ∷ ds) = component_eq c d && components_eq cs ds
components_eq _ _ = false

unfoldable pub path_eq : Text → Text → Bool
unfolding components_eq
path_eq p q = components_eq (components p) (components q)

-- A name that `components` made: plain, and without a separator.
abbrev pub IsName : Text → Type 0
IsName a = (is_plain a ≡ true) × (all (λ b. not (b == b'/')) a ≡ true)

abbrev pub Named : List Component → Type 0
Named [] = Unit
Named (normal a ∷ cs) = IsName a × Named cs
Named (c ∷ cs) = Named cs

no_separator-push_front :
    (c b : ℕ) (ps : List Text)
    → (b == c) ≡ false
    → all (all (λ d. not (d == c))) ps ≡ true
    → all (all (λ d. not (d == c))) (push_front b ps) ≡ true
unfolding push_front all
no_separator-push_front c b [] e h = ground arith
no_separator-push_front c b (p ∷ ps) e h = ground arith

no_separator-split : (c : ℕ) (s : Text) → all (all (λ b. not (b == c))) (split c s) ≡ true
unfolding split all
no_separator-split c [] = refl
no_separator-split c (b ∷ s) = elim (Bool-cases (b == c)) [
  | inl e ↦ rw e (no_separator-split c s)
  | inr e ↦ rw e (no_separator-push_front c b (split c s) e (no_separator-split c s))
]

Named-pieces : (ps : List Text) → all (all (λ b. not (b == b'/'))) ps ≡ true → Named (pieces ps)
unfolding pieces add_piece all
Named-pieces [] h = tt
Named-pieces (p ∷ ps) h =
    let rest = Named-pieces ps (ground arith) in
    elim (Bool-cases (text_eq p [])) [
      | inl e ↦ rw e rest
      | inr e ↦ elim (Bool-cases (text_eq p (codes "."))) [
        | inl f ↦ rw (e, f) rest
        | inr f ↦ elim (Bool-cases (text_eq p (codes ".."))) [
          | inl g ↦ rw (e, f, g) rest
          | inr g ↦ rw (e, f, g) ((rw (e, f, g) refl, ground arith), rest)
        ]
      ]
    ]

Named-append : (cs ds : List Component) → Named (cs ++ ds) → Named ds
Named-append [] ds h = h
Named-append (root_dir ∷ cs) ds h = Named-append cs ds h
Named-append (cur_dir ∷ cs) ds h = Named-append cs ds h
Named-append (parent_dir ∷ cs) ds h = Named-append cs ds h
Named-append (normal a ∷ cs) ds h = Named-append cs ds h.1

Named-relative :
    (ps : List Text) → all (all (λ b. not (b == b'/'))) ps ≡ true → Named (relative_pieces ps)
unfolding relative_pieces all
Named-relative [] h = tt
Named-relative (p ∷ ps) h = elim (Bool-cases (text_eq p (codes "."))) [
  | inl e ↦ rw e (Named-pieces ps (ground arith))
  | inr e ↦ let named = Named-pieces (p ∷ ps) h in rw e (rw e at named)
]

-- The names of the components of an absolute path.
pub Named-components : (s : Text) → starts_with b'/' s ≡ true → Named (components s)
unfolding components
Named-components s h = rw h (Named-pieces (split b'/' s) (no_separator-split b'/' s))

-- Those of any path.
pub Named-any : (s : Text) → Named (components s)
unfolding components
Named-any s = elim (Bool-cases (starts_with b'/' s)) [
  | inl e ↦ rw e (Named-pieces (split b'/' s) (no_separator-split b'/' s))
  | inr e ↦ rw e (Named-relative (split b'/' s) (no_separator-split b'/' s))
]

pub Named-suffix : (cs ds es : List Component) → es ≡ cs ++ ds → Named es → Named ds
Named-suffix cs ds es e h = Named-append cs ds (rw⁻¹ e h)

pub Named-names : (names : List Text) → Named (map normal names) → All IsName names
Named-names [] h = tt
Named-names (a ∷ names) h = (h.0, Named-names names h.1)
