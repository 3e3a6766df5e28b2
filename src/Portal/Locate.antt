-- ===== src/Portal/Locate.antt =====
-- Which directory a request is served from.
use weft_os.Base.{
  ◌≡◌, ◌≢◌, refl, ◌∙◌, ap, ◌⊎◌, inl, inr, Bool, true, false, ◌||◌, not, Bool-cases, &&-eq-true,
  List, [], ◌∷◌, ◌++◌, map, Option, none, some, Text, All, starts_with, all, split, drop, Result,
  ok, err,
}
use weft_os.Base.Paths.{
  Component, normal, components, strip_components, strip_components-eq-some, normal_names,
  normal_names-eq-some, is_plain, IsName, Named-components, Named-suffix, Named-names,
}
use weft_os.Portal.{Response, is_direct, inside, relative_to, Root, denied}

-- `names` is the way from `root` to `path`: the components of the path are those of the root and
-- then these names, none of which is empty, `.`, `..` or has a `/`.
abbrev pub Below : Text → Text → List Text → Type 0
Below root path names = (components path ≡ components root ++ map normal names) × All IsName names

inside-eq-some :
    (rest : Option (List Component)) (names : List Text)
    → inside rest ≡ some names
    → (cs : List Component) × (rest ≡ some cs) × (normal_names cs ≡ some names)
unfolding inside
inside-eq-some none names h = cc
inside-eq-some (some cs) names h = (cs, refl, h)

none-ne : {A : Type 0} {a : A} → ◌≢◌ {A = Option A} none (some a)
none-ne h = cc

pub relative_to-Below :
    (path root : Text) (names : List Text)
    → relative_to path root ≡ some names
    → Below root path names
unfolding relative_to
relative_to-Below path root names h = elim (Bool-cases (is_direct path)) [
  | inl e ↦
      let (cs, stripped, named) =
        inside-eq-some (strip_components (components root) (components path)) names (rw e at h) in
      let path_is = strip_components-eq-some (components root) (components path) cs stripped in
      let names_are = normal_names-eq-some cs names named in
      let absolute =
        (&&-eq-true (starts_with b'/' path) (all is_plain (split b'/' (drop 1 path)))
          (unfold is_direct in e)).0 in
      (
        path_is ∙ ap (λ z. components root ++ z) names_are,
        Named-names names (
            rw⁻¹ names_are (
              Named-suffix (components root) cs (components path) path_is
                (Named-components path absolute))),
      )
  | inr e ↦ absurd (none-ne (rw e at h))
]

module _ {Fd : Type 0} where
  -- Whether a root may serve the request.
  abbrev pub usable : Bool → Root Fd → Bool
  usable write root = root.writable || not write

  abbrev pub Passed : Root Fd → Text → Bool → Type 0
  Passed root path write = (usable write root ≡ false) ⊎ (relative_to path root.path ≡ none)

  -- `root` is the first usable one that the path is below.
  abbrev pub FirstBelow : List (Root Fd) → Text → Bool → Root Fd → List Text → Type 0
  FirstBelow [] path write root names = ⊥
  FirstBelow (r ∷ roots) path write root names =
      ((r ≡ root) × (usable write root ≡ true) × Below root.path path names)
      ⊎ (Passed r path write × FirstBelow roots path write root names)

  -- No usable root has the path below it.
  abbrev pub NoneBelow : List (Root Fd) → Text → Bool → Type 0
  NoneBelow [] path write = Unit
  NoneBelow (r ∷ roots) path write = Passed r path write × NoneBelow roots path write

  abbrev pub Located : List (Root Fd) → Text → Bool → Result Response (Root Fd × List Text) → Type 0
  Located roots path write (ok (root, names)) = FirstBelow roots path write root names
  Located roots path write (err r) = NoneBelow roots path write × (r ≡ denied path)
