-- ===== src/Base/Paths/Compare.antt =====
-- Equal paths, and the name a path ends in.
use mathlib.Core.Path.{◌≡◌, refl, subst}
use mathlib.Core.Bool.{true}
use mathlib.Core.List.{List, [], ◌∷◌, ◌++◌}
use mathlib.Core.Option.{some}
use native.Mathlib.Omega.{arith}
use weft_os.Base.Tests.{some-injective}
use weft_os.Base.Str.{Text, text_eq_refl}
use weft_os.Base.Paths.{
  Component, root_dir, cur_dir, parent_dir, normal, components, component_eq, component_eq→eq,
  components_eq, path_eq, last_name, file_name, join, IsName, Named, Named-any,
}
use weft_os.Base.Paths.Join.{components-join}

component_eq_refl : (c : Component) → component_eq c c ≡ true
unfolding component_eq
component_eq_refl root_dir = refl
component_eq_refl cur_dir = refl
component_eq_refl parent_dir = refl
component_eq_refl (normal a) = text_eq_refl a

components_eq_refl : (cs : List Component) → components_eq cs cs ≡ true
unfolding components_eq
components_eq_refl [] = refl
components_eq_refl (c ∷ cs) = rw (component_eq_refl c, components_eq_refl cs) refl

components_eq→eq : (cs ds : List Component) → components_eq cs ds ≡ true → cs ≡ ds
unfolding components_eq
components_eq→eq [] [] h = refl
components_eq→eq [] (d ∷ ds) h = cc
components_eq→eq (c ∷ cs) [] h = cc
components_eq→eq (c ∷ cs) (d ∷ ds) h = ground (arith, component_eq→eq c d, components_eq→eq cs ds)

pub path_eq→eq : (p q : Text) → path_eq p q ≡ true → components p ≡ components q
unfolding path_eq
path_eq→eq p q h = components_eq→eq (components p) (components q) h

pub path_eq-components : (p q : Text) → components p ≡ components q → path_eq p q ≡ true
unfolding path_eq
path_eq-components p q h = rw h (components_eq_refl (components q))

last_name-append : (cs : List Component) (n : Text) → last_name (cs ++ normal n ∷ []) ≡ some n
unfolding last_name
last_name-append [] n = refl
last_name-append (root_dir ∷ []) n = refl
last_name-append (cur_dir ∷ []) n = refl
last_name-append (parent_dir ∷ []) n = refl
last_name-append (normal a ∷ []) n = refl
last_name-append (root_dir ∷ d ∷ cs) n = last_name-append (d ∷ cs) n
last_name-append (cur_dir ∷ d ∷ cs) n = last_name-append (d ∷ cs) n
last_name-append (parent_dir ∷ d ∷ cs) n = last_name-append (d ∷ cs) n
last_name-append (normal a ∷ d ∷ cs) n = last_name-append (d ∷ cs) n

-- A path with the components of a joined one ends in the name that was joined.
pub file_name-join :
    (s p n : Text) → IsName n → components s ≡ components (join p n) → file_name s ≡ some n
unfolding file_name
file_name-join s p n h e = rw (e, components-join p n h) (last_name-append (components p) n)

last_name-IsName : (cs : List Component) (n : Text) → Named cs → last_name cs ≡ some n → IsName n
unfolding last_name
last_name-IsName [] n h e = cc
last_name-IsName (normal a ∷ []) n h e = subst IsName (some-injective e) h.0
last_name-IsName (root_dir ∷ []) n h e = cc
last_name-IsName (cur_dir ∷ []) n h e = cc
last_name-IsName (parent_dir ∷ []) n h e = cc
last_name-IsName (normal a ∷ d ∷ cs) n h e = last_name-IsName (d ∷ cs) n h.1 e
last_name-IsName (root_dir ∷ d ∷ cs) n h e = last_name-IsName (d ∷ cs) n h e
last_name-IsName (cur_dir ∷ d ∷ cs) n h e = last_name-IsName (d ∷ cs) n h e
last_name-IsName (parent_dir ∷ d ∷ cs) n h e = last_name-IsName (d ∷ cs) n h e

pub file_name-IsName : (s n : Text) → file_name s ≡ some n → IsName n
unfolding file_name
file_name-IsName s n h = last_name-IsName (components s) n (Named-any s) h
