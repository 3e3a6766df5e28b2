-- ===== src/Windows/Focus.antt =====
-- Which window a new one may take the focus from.
use weft_os.Base.{
  ◌≡◌, refl, ==_refl, Bool, true, false, ◌||◌, List, [], ◌∷◌, ◌++◌, append_assoc, some, any, all,
  filter, arith,
}
use weft_os.Windows.{Window, Space, Compositor, swap_top, elements_of}
use weft_os.Windows.Layout.{place_windows, order, lowered, work_area_now}
use weft_os.Windows.Stack.{without, among, Distinct, Lawful, place_each-elements, swap_top-append}

pub without-absent : (w : Window) (ws : List Window) → among w ws ≡ false → without w ws ≡ ws
unfolding filter any
without-absent w [] h = refl
without-absent w (v ∷ ws) h = rw (without-absent w ws (ground arith)) (ground arith)

pub among-append :
    (v : Window) (ws vs : List Window) → among v (ws ++ vs) ≡ (among v ws || among v vs)
unfolding any
among-append v [] vs = refl
among-append v (w ∷ ws) vs = rw (among-append v ws vs) (ground arith)

-- The elements with the new window beneath the one on top.
behind-Distinct :
    (w top : Window) (ws : List Window)
    → Distinct (ws ++ top ∷ [])
    → among w (ws ++ top ∷ []) ≡ false
    → Distinct (ws ++ (w ∷ top ∷ []))
unfolding any
behind-Distinct w top [] d h = (ground arith, (refl, tt))
behind-Distinct w top (a ∷ ws) d h =
    let here = rw (among-append a ws (top ∷ [])) at d.0 in
    let rest = behind-Distinct w top ws d.1 (ground arith) in
    (rw (among-append a ws (w ∷ top ∷ [])) (ground arith), rest)

all-among :
    (p : Window → Bool) (vs : List Window)
    → ((v : Window) → among v vs ≡ true → p v ≡ true)
    → all p vs ≡ true
unfolding all any
all-among p [] h = refl
all-among p (v ∷ vs) h =
    let here = h v (rw (==_refl v.id) refl) in
    let rest = all-among p vs (λ u e. h u (ground arith)) in rw (here, rest) refl

behind-all :
    (w top : Window) (ws : List Window)
    → all (λ v. among v (ws ++ (w ∷ top ∷ []))) ((ws ++ top ∷ []) ++ w ∷ []) ≡ true
behind-all w top ws =
    all-among (λ v. among v (ws ++ (w ∷ top ∷ []))) ((ws ++ top ∷ []) ++ w ∷ [])
      (λ v e.
        let e' = rw (among-append v (ws ++ top ∷ []) (w ∷ []), among-append v ws (top ∷ [])) at e in
        rw (among-append v ws (w ∷ top ∷ [])) (unfold any in ground arith))

module _ {S : Type 0} (sp : Space S) where
  -- The focus and the window on top are those of `c`, and `w` is beneath the one on top.
  abbrev pub Behind : Compositor S → Window → Compositor S → Type 0
  Behind c w c' =
      (c'.focus ≡ c.focus)
      × ((ws : List Window) × (top : Window) × (elements_of sp c ≡ ws ++ top ∷ [])
          × (elements_of sp c' ≡ ws ++ (w ∷ top ∷ [])))

module _ {S : Type 0} (sp : Space S) (laws : Lawful sp) where
  pub place_behind :
      (c : Compositor S) (w top : Window) (ws : List Window)
      → elements_of sp c ≡ (ws ++ top ∷ []) ++ w ∷ []
      → Distinct (ws ++ top ∷ [])
      → among w (ws ++ top ∷ []) ≡ false
      → elements_of sp (place_windows sp c false (some w)) ≡ ws ++ (w ∷ top ∷ [])
  unfolding place_windows order lowered
  place_behind c w top ws e d h =
      let is_order : swap_top w (elements_of sp c) ≡ ws ++ (w ∷ top ∷ []) =
        rw (e, append_assoc ws (top ∷ []) (w ∷ [])) (swap_top-append w top ws h) in
      rw is_order (
        place_each-elements sp laws (sp.output c.space) (work_area_now sp c) c
          (ws ++ (w ∷ top ∷ [])) (behind-Distinct w top ws d h) (rw e (behind-all w top ws)))
