-- ===== src/Windows/Stack.antt =====
-- The order that placing the windows leaves.
use weft_os.Base.{
  ◌≡◌, refl, sym, ap, ◌∙◌, ℕ, Bool, true, false, not, Bool-cases, inl, inr, List, [], ◌∷◌, ◌++◌,
  append_assoc, append-nil, Option, none, some, any, all, filter, if◌then◌else◌, arith,
}
use weft_os.WorkArea.{Rectangle}
use weft_os.Windows.{Window, Space, Compositor, same, swap_top, elements_of, is_panel}
use weft_os.Windows.Layout.{placed, place_each}

abbrev pub without : Window → List Window → List Window
without w ws = filter (λ v. not (same v w)) ws

-- Whether a window is one of `ws`.
abbrev pub among : Window → List Window → Bool
among v ws = any (same v) ws

abbrev pub Distinct : List Window → Type 0
Distinct [] = Unit
Distinct (w ∷ ws) = (among w ws ≡ false) × Distinct ws

-- What Smithay documents: mapping an element puts it on top, and each is there once.
pub record Lawful {S : Type 0} (sp : Space S) : Type 0 where
  pub map_element-elements :
      (s : S) (w : Window) (l : ℕ × ℕ) (a : Bool)
      → sp.elements (sp.map_element s w l a) ≡ without w (sp.elements s) ++ w ∷ []
  pub elements-Distinct : (s : S) → Distinct (sp.elements s)

filter-append :
    (p : Window → Bool) (xs ys : List Window) → filter p (xs ++ ys) ≡ filter p xs ++ filter p ys
unfolding filter
filter-append p [] ys = refl
filter-append p (x ∷ xs) ys = rw (filter-append p xs ys) (ground arith)

abbrev without_all : List Window → List Window → List Window
without_all ws es = filter (λ v. not (among v ws)) es

without_all-without :
    (w : Window) (ws es : List Window) → without_all ws (without w es) ≡ without_all (w ∷ ws) es
unfolding filter any
without_all-without w ws [] = refl
without_all-without w ws (e ∷ es) = elim (Bool-cases (same e w)) [
  | inl h ↦ rw (h, without_all-without w ws es) refl
  | inr h ↦ rw (h, without_all-without w ws es) refl
]

-- What mapping the windows of `ws` in turn makes of the elements.
mapped : List Window → List Window → List Window
mapped es [] = es
mapped es (w ∷ ws) = mapped (without w es ++ w ∷ []) ws

without_all-nil : (es : List Window) → without_all [] es ≡ es
unfolding filter any
without_all-nil [] = refl
without_all-nil (e ∷ es) = ap (◌∷◌ e) (without_all-nil es)

without_all-one :
    (w : Window) (ws : List Window) → among w ws ≡ false → without_all ws (w ∷ []) ≡ w ∷ []
unfolding filter
without_all-one w ws h = rw h refl

mapped_lem : (es ws : List Window) → Distinct ws → mapped es ws ≡ without_all ws es ++ ws
unfolding mapped
mapped_lem es [] h = sym (rw append-nil (without_all-nil es))
mapped_lem es (w ∷ ws) h =
    mapped_lem (without w es ++ w ∷ []) ws h.1
    ∙ rw
        (
          filter-append (λ v. not (among v ws)) (without w es) (w ∷ []),
          without_all-without w ws es,
          without_all-one w ws h.0,
        )
        (append_assoc (without_all (w ∷ ws) es) (w ∷ []) ws)

without_all-known : (ws es : List Window) → all (λ v. among v ws) es ≡ true → without_all ws es ≡ []
unfolding filter all
without_all-known ws [] h = refl
without_all-known ws (e ∷ es) h = rw (without_all-known ws es (ground arith)) (ground arith)

module _ {S : Type 0} (sp : Space S) (laws : Lawful sp) where
  placed-elements :
      (c : Compositor S) (w : Window) (g : Option Rectangle)
      → elements_of sp (placed sp c w g) ≡ without w (elements_of sp c) ++ w ∷ []
  unfolding placed
  placed-elements c w none = laws.map_element-elements c.space w _ false
  placed-elements c w (some g) = laws.map_element-elements c.space w _ false

  place_each-mapped :
      (output area : Option Rectangle) (c : Compositor S) (ws : List Window)
      → elements_of sp (place_each sp output area c ws) ≡ mapped (elements_of sp c) ws
  unfolding place_each mapped
  place_each-mapped output area c [] = refl
  place_each-mapped output area c (w ∷ ws) =
      let c' = placed sp c w (if is_panel sp c w then output else area) in
      place_each-mapped output area c' ws
      ∙ ap (λ es. mapped es ws) (placed-elements c w (if is_panel sp c w then output else area))

  -- Placing windows that include every element leaves them in their order.
  pub place_each-elements :
      (output area : Option Rectangle) (c : Compositor S) (ws : List Window)
      → Distinct ws
      → all (λ v. among v ws) (elements_of sp c) ≡ true
      → elements_of sp (place_each sp output area c ws) ≡ ws
  place_each-elements output area c ws d h =
      place_each-mapped output area c ws
      ∙ (mapped_lem (elements_of sp c) ws d ∙ rw (without_all-known ws (elements_of sp c) h) refl)

module _ {S : Type 0} (sp : Space S) where
  -- What placing the windows leaves alone.
  abbrev pub SameFocus : Compositor S → Compositor S → Type 0
  SameFocus c c' = (c'.focus ≡ c.focus) × (c'.ipc ≡ c.ipc) × (c'.panels ≡ c.panels)

  placed-SameFocus :
      (c : Compositor S) (w : Window) (g : Option Rectangle) → SameFocus c (placed sp c w g)
  unfolding placed
  placed-SameFocus c w none = (refl, refl, refl)
  placed-SameFocus c w (some g) = (refl, refl, refl)

  pub place_each-SameFocus :
      (output area : Option Rectangle) (c : Compositor S) (ws : List Window)
      → SameFocus c (place_each sp output area c ws)
  unfolding place_each
  place_each-SameFocus output area c [] = (refl, refl, refl)
  place_each-SameFocus output area c (w ∷ ws) =
      let g = if is_panel sp c w then output else area in
      let (f, i, p) = placed-SameFocus c w g in
      let (f', i', p') = place_each-SameFocus output area (placed sp c w g) ws in
      (f' ∙ f, i' ∙ i, p' ∙ p)

-- A new window, and the one that was on top.
pub swap_top-append :
    (w top : Window) (ws : List Window)
    → among w (ws ++ top ∷ []) ≡ false
    → swap_top w (ws ++ (top ∷ w ∷ [])) ≡ ws ++ (w ∷ top ∷ [])
unfolding swap_top any
swap_top-append w top [] h = ground arith
swap_top-append w top (a ∷ []) h = ground arith
swap_top-append w top (a ∷ b ∷ ws) h =
    let rest = swap_top-append w top (b ∷ ws) (ground arith) in rw rest (ground arith)
