-- ===== src/Windows.antt =====
-- crates/weft-compositor/src/windows.rs: stacking, focus and activation of toplevel windows, with
-- `take_focus_on_map` of crates/weft-compositor/src/appd_ipc.rs. Smithay's `Space` is an interface;
-- what the compositor sends to clients is a list of events. Positions are not negative.
pub mod Layout
pub mod Stack
pub mod Focus
pub mod Spent
pub mod Once
mod Examples
use weft_os.Base.{
  ◌==◌, ◌+◌, ℕ, zero, suc, Bool, true, false, ◌&&◌, ◌||◌, not, List, [], ◌∷◌, ◌++◌, map, Option,
  none, some, any, filter, find, length, is_empty, if◌then◌else◌,
}
use weft_os.WorkArea.{Rectangle, Zone, work_area}

pub record Window : Type 0 where
  pub id : ℕ
  pub surface : Option ℕ
  pub has_toplevel : Bool
  -- `window_session`
  pub session : Option ℕ

-- A registered shell window; `zone` is what it reserves.
pub record Panel : Type 0 where
  pub alive : Bool
  pub surface : Option ℕ
  pub zone : Option Zone

-- The keys of `sessions`, and the sessions that took focus by mapping.
pub record Ipc : Type 0 where
  pub sessions : List ℕ
  pub focused_on_map : List ℕ

pub data Event : Type 0 where
  close_sent : Window → Event
  sized : Window → ℕ × ℕ → Event
  pending_sent : Window → Event

-- Elements are listed from the bottom to the top; `output` is the geometry of the first output.
pub record Space (S : Type 0) : Type 0 where
  pub elements : S → List Window
  pub element_location : S → Window → Option (ℕ × ℕ)
  pub output : S → Option Rectangle
  pub raise_element : S → Window → Bool → S
  pub map_element : S → Window → ℕ × ℕ → Bool → S
  pub unmap_elem : S → Window → S

-- `focus` is the keyboard's, if the seat has one.
pub record Compositor (S : Type 0) : Type 0 where
  pub space : S
  pub keyboard : Bool
  pub focus : Option ℕ
  pub panels : List Panel
  pub ipc : Option Ipc
  pub sent : List Event

-- `==` on windows
abbrev pub same : Window → Window → Bool
same a b = a.id == b.id

abbrev pub is : Option ℕ → ℕ → Bool
is o n = elim o [ none ↦ false | some m ↦ m == n ]

unfoldable pub find_last {ℓ} : {A : Type ℓ} → (A → Bool) → List A → Option A
find_last p [] = none
find_last p (x ∷ xs) = elim (find_last p xs) [
  | none ↦ if p x then some x else none
  | some y ↦ some y
]

abbrev pub last {ℓ} : {A : Type ℓ} → List A → Option A
last xs = find_last (λ x. true) xs

abbrev pub first_of {ℓ} : {A : Type ℓ} → List A → Option A
first_of [] = none
first_of (x ∷ xs) = some x

-- `HashSet::insert` on the sessions that took focus
unfoldable pub take_focus_on_map : ℕ → Ipc → Ipc × Bool
take_focus_on_map i ipc =
    if any (λ s. s == i) ipc.sessions && not (any (λ s. s == i) ipc.focused_on_map)
    then (record ipc { focused_on_map = i ∷ ipc.focused_on_map }, true)
    else (ipc, false)

-- The swap that slips a window that is on top under the one beneath it.
unfoldable pub swap_top : Window → List Window → List Window
swap_top w [] = []
swap_top w (a ∷ []) = a ∷ []
swap_top w (a ∷ b ∷ []) = if same b w && not (same a w) then b ∷ a ∷ [] else a ∷ b ∷ []
swap_top w (a ∷ b ∷ d ∷ ws) =
    let rest = swap_top w (b ∷ d ∷ ws) in if same a w then a ∷ b ∷ d ∷ ws else a ∷ rest

module _ {S : Type 0} (sp : Space S) where
  unfoldable pub is_panel_surface : Compositor S → ℕ → Bool
  is_panel_surface c s = any (λ p. p.alive && is p.surface s) c.panels

  unfoldable pub is_panel : Compositor S → Window → Bool
  unfolding is_panel_surface
  is_panel c w = elim w.surface [ none ↦ false | some s ↦ is_panel_surface c s ]

  abbrev pub elements_of : Compositor S → List Window
  elements_of c = sp.elements c.space

  abbrev with_surface : ℕ → List Window → Option Window
  with_surface s ws = find (λ w. is w.surface s) ws

  send_pending_configures : Compositor S → Compositor S
  send_pending_configures c = record c {
    sent = c.sent ++ map pending_sent (filter (λ w. w.has_toplevel) (elements_of c));
  }

  pub set_focus : Option ℕ → Compositor S → Compositor S
  set_focus surface c = if c.keyboard then record c { focus = surface } else c

  focus_surface : Option ℕ → Compositor S → Compositor S
  unfolding set_focus
  focus_surface none c = c
  focus_surface (some s) c = set_focus (some s) c

  unfoldable pub activate_window : Compositor S → Window → Compositor S
  unfolding send_pending_configures focus_surface
  activate_window c w =
      focus_surface w.surface
        (send_pending_configures (record c { space = sp.raise_element c.space w true }))

  -- the `find_map` over the panels
  panel_window : List Panel → List Window → Option Window
  panel_window [] ws = none
  panel_window (p ∷ ps) ws =
      let rest = panel_window ps ws in
      elim (if p.alive then p.surface else none) [
        | none ↦ rest
        | some s ↦ elim (with_surface s ws) [ none ↦ rest | some w ↦ some w ]
      ]

  -- `activate_window` on what was found, and whether anything was
  pub activate_found : Compositor S → Option Window → Compositor S × Bool
  unfolding activate_window
  activate_found c none = (c, false)
  activate_found c (some w) = (activate_window c w, true)

  unfoldable pub activate_panel : Compositor S → Compositor S × Bool
  unfolding activate_found panel_window
  activate_panel c = activate_found c (panel_window c.panels (elements_of c))

  abbrev of_session : ℕ → Window → Bool
  of_session i w = is w.session i

  unfoldable pub activate_session : Compositor S → ℕ → Compositor S × Bool
  unfolding activate_found
  activate_session c i = activate_found c (find_last (of_session i) (elements_of c))

  pub send_close : Compositor S → Option Window → Compositor S
  send_close c none = c
  send_close c (some w) =
      if w.has_toplevel then record c { sent = c.sent ++ close_sent w ∷ [] } else c

  -- the focus is that of the keyboard, if there is one
  abbrev current_focus : Compositor S → Option ℕ
  current_focus c = if c.keyboard then c.focus else none

  close_at : Compositor S → Option ℕ → Compositor S
  unfolding is_panel_surface send_close
  close_at c none = c
  close_at c (some s) =
      if is_panel_surface c s then c else send_close c (with_surface s (elements_of c))

  unfoldable pub close_focused_window : Compositor S → Compositor S
  unfolding close_at
  close_focused_window c = close_at c (current_focus c)

  unfoldable pub close_session_windows : Compositor S → ℕ → Compositor S × ℕ
  close_session_windows c i =
      let ws = filter (λ w. of_session i w && w.has_toplevel) (elements_of c) in
      (record c { sent = c.sent ++ map close_sent ws }, length ws)
