-- ===== src/Windows/Layout.antt =====
-- Where windows go: the placing of all of them, a new window, and a window that closed.
use weft_os.Base.{
  ◌==◌, ℕ, Bool, true, false, not, List, [], ◌∷◌, ◌++◌, map, Option, none, some, any, filter,
  if◌then◌else◌,
}
use weft_os.WorkArea.{Rectangle, work_area}
use weft_os.Windows.{
  Window, Ipc, Event, sized, Space, Compositor, find_last, last, first_of, take_focus_on_map,
  swap_top, is_panel_surface, is_panel, elements_of, set_focus, activate_window, current_focus,
  with_surface,
}

-- whether the session's window comes to the front, and the supervisor's sessions afterwards
unfoldable pub take_focus : Option Ipc → ℕ → Option Ipc × Bool
take_focus none i = (none, false)
take_focus (some ipc) i = let (ipc', first) = take_focus_on_map i ipc in (some ipc', first)

module _ {S : Type 0} (sp : Space S) where
  abbrev pub work_area_now : Compositor S → Option Rectangle
  work_area_now c =
      work_area (sp.output c.space) (map (λ p. if p.alive then p.zone else none) c.panels)

  -- The order that `place_windows` maps the windows in.
  unfoldable pub lowered : Compositor S → Bool → List Window → List Window
  lowered c lower_panels ws =
      if lower_panels
      then filter (is_panel sp c) ws ++ filter (λ w. not (is_panel sp c w)) ws
      else ws

  unfoldable pub order : Compositor S → Bool → Option Window → List Window → List Window
  unfolding lowered
  order c lower_panels none ws = lowered c lower_panels ws
  order c lower_panels (some w) ws = swap_top w (lowered c lower_panels ws)

  location_or_default : Option (ℕ × ℕ) → ℕ × ℕ
  location_or_default none = (0, 0)
  location_or_default (some l) = l

  configured : Compositor S → Window → Rectangle → List Event
  configured c w g = if w.has_toplevel then c.sent ++ sized w (g.w, g.h) ∷ [] else c.sent

  -- the turn of the loop for one window, by the geometry for it
  unfoldable pub placed : Compositor S → Window → Option Rectangle → Compositor S
  unfolding configured location_or_default
  placed c w none = record c {
    space = sp.map_element c.space w (location_or_default (sp.element_location c.space w)) false;
  }
  placed c w (some g) = record c {
    space = sp.map_element c.space w (g.x, g.y) false;
    sent = configured c w g;
  }

  unfoldable pub place_each :
      Option Rectangle → Option Rectangle → Compositor S → List Window → Compositor S
  unfolding placed
  place_each output area c [] = c
  place_each output area c (w ∷ ws) =
      place_each output area (placed c w (if is_panel sp c w then output else area)) ws

  unfoldable pub place_windows : Compositor S → Bool → Option Window → Compositor S
  unfolding place_each
  place_windows c lower_panels below_top =
      place_each (sp.output c.space) (work_area_now c) c
        (order c lower_panels below_top (elements_of sp c))

  abbrev pub layout_app_windows : Compositor S → Compositor S
  layout_app_windows c = place_windows c false none

  -- the `if let` at the end of `fit_panels`
  unfoldable pub hand_over : Compositor S → Option Window → Compositor S
  hand_over c none = c
  hand_over c (some front) = if is_panel sp c front then c else activate_window sp c front

  unfoldable pub handed : Compositor S → Option ℕ → Compositor S
  unfolding hand_over
  handed c none = c
  handed c (some s) = if is_panel_surface sp c s then hand_over c (last (elements_of sp c)) else c

  unfoldable pub fit_panels : Compositor S → Compositor S
  unfolding handed
  fit_panels c = let c' = place_windows c true none in handed c' (current_focus sp c')

  unfoldable pub first_window : Compositor S → Option ℕ → Option Ipc × Bool
  unfolding take_focus
  first_window c (some i) = take_focus c.ipc i
  first_window c none =
      (c.ipc, not (any (λ w. elim w.session [ none ↦ true | some i ↦ false ]) (elements_of sp c)))

  -- the end of `map_new_window`
  unfoldable pub shown : Compositor S → Window → Bool → Compositor S
  shown c w first =
      if is_panel sp c w
      then fit_panels c
      else if first
      then activate_window sp (layout_app_windows c) w
      else place_windows c false (some w)

  unfoldable pub map_new_window : Compositor S → Window → Compositor S
  unfolding first_window shown
  map_new_window c w =
      let (ipc', first) = first_window c w.session in
      shown (record c { ipc = ipc'; space = sp.map_element c.space w (0, 0) false }) w first

  unfoldable pub or_else : Option Window → Option Window → Option Window
  or_else none o = o
  or_else (some w) o = some w

  unfoldable pub give_focus : Compositor S → Option Window → Compositor S
  give_focus c (some next) = activate_window sp c next
  give_focus c none = set_focus sp none c

  unfoldable pub next_front : Compositor S → Option Window
  unfolding or_else
  next_front c =
      or_else (find_last (λ w. not (is_panel sp c w)) (elements_of sp c))
        (first_of (elements_of sp c))

  -- the rest of `window_closed` once the window is unmapped, by the focus
  unfoldable pub refocus : Compositor S → ℕ → Option ℕ → Compositor S
  unfolding give_focus next_front
  refocus c surface none = give_focus c (next_front c)
  refocus c surface (some s) = if s == surface then give_focus c (next_front c) else c

  unfoldable pub closed : Compositor S → ℕ → Option Window → Compositor S
  unfolding refocus
  closed c surface none = c
  closed c surface (some window) =
      let c' = record c { space = sp.unmap_elem c.space window } in
      refocus c' surface (current_focus sp c')

  unfoldable pub window_closed : Compositor S → ℕ → Compositor S
  unfolding closed
  window_closed c surface = closed c surface (with_surface sp surface (elements_of sp c))

  geometry_or_zero : Option Rectangle → Rectangle
  geometry_or_zero none = record { x = 0; y = 0; w = 0; h = 0 }
  geometry_or_zero (some g) = g

  -- `output_geometry` and `app_geometry`
  unfoldable pub output_geometry : Compositor S → Rectangle
  unfolding geometry_or_zero
  output_geometry c = geometry_or_zero (sp.output c.space)

  unfoldable pub app_geometry : Compositor S → Rectangle
  unfolding geometry_or_zero
  app_geometry c = geometry_or_zero (work_area_now c)
