-- ===== src/Windows/Spent.antt =====
-- The sessions that took the focus by mapping: what each operation does to them.
use weft_os.Base.{
  ◌≡◌, refl, ◌∙◌, ◌==◌, ==_refl, ℕ, Bool, true, false, ◌||◌, not, Bool-cases, Option-cases, inl,
  inr, Option, none, some, any, if◌then◌else◌, arith,
}
use weft_os.Windows.{
  Window, Ipc, Space, Compositor, elements_of, is_panel, is_panel_surface, current_focus, last,
  take_focus_on_map, set_focus, focus_surface, send_pending_configures, activate_window,
  activate_found, send_close,
}
use weft_os.Windows.Layout.{
  take_focus, first_window, shown, layout_app_windows, place_windows, hand_over, handed, refocus,
  next_front, work_area_now, order, fit_panels, map_new_window, give_focus, closed,
}
use weft_os.Windows.Stack.{place_each-SameFocus, SameFocus}

-- The session took the focus by mapping, or is not a session of the supervisor's.
abbrev pub spent : Option Ipc → ℕ → Bool
spent none i = true
spent (some ipc) i = not (any (λ s. s == i) ipc.sessions) || any (λ s. s == i) ipc.focused_on_map

take_focus-spent : (ipc : Option Ipc) (i : ℕ) → spent (take_focus ipc i).0 i ≡ true
unfolding take_focus take_focus_on_map any
take_focus-spent none i = refl
take_focus-spent (some ipc) i = ground (arith, ==_refl i)

take_focus-keeps :
    (ipc : Option Ipc) (i j : ℕ) → spent ipc i ≡ true → spent (take_focus ipc j).0 i ≡ true
unfolding take_focus take_focus_on_map any
take_focus-keeps none i j h = refl
take_focus-keeps (some ipc) i j h = ground arith

take_focus-refused :
    (ipc : Option Ipc) (i : ℕ) → spent ipc i ≡ true → take_focus ipc i ≡ (ipc, false)
unfolding take_focus take_focus_on_map
take_focus-refused none i h = refl
take_focus-refused (some ipc) i h = ground arith

module _ {S : Type 0} (sp : Space S) where
  focus_surface-ipc : (c : Compositor S) (s : Option ℕ) → (focus_surface sp s c).ipc ≡ c.ipc
  unfolding focus_surface set_focus
  focus_surface-ipc c none = refl
  focus_surface-ipc c (some s) = elim (Bool-cases c.keyboard) [
    | inl e ↦ rw e refl
    | inr e ↦ rw e refl
  ]

  pub activate_window-ipc : (c : Compositor S) (w : Window) → (activate_window sp c w).ipc ≡ c.ipc
  unfolding activate_window send_pending_configures
  activate_window-ipc c w = focus_surface-ipc _ w.surface

  pub activate_found-ipc :
      (c : Compositor S) (w : Option Window) → (activate_found sp c w).0.ipc ≡ c.ipc
  unfolding activate_found
  activate_found-ipc c none = refl
  activate_found-ipc c (some w) = activate_window-ipc c w

  pub place_windows-SameFocus :
      (c : Compositor S) (lower : Bool) (w : Option Window)
      → SameFocus sp c (place_windows sp c lower w)
  unfolding place_windows
  place_windows-SameFocus c lower w =
      place_each-SameFocus sp (sp.output c.space) (work_area_now sp c) c
        (order sp c lower w (elements_of sp c))

  pub place_windows-ipc :
      (c : Compositor S) (lower : Bool) (w : Option Window)
      → (place_windows sp c lower w).ipc ≡ c.ipc
  place_windows-ipc c lower w = (place_windows-SameFocus c lower w).1

  hand_over-ipc : (c : Compositor S) (w : Option Window) → (hand_over sp c w).ipc ≡ c.ipc
  unfolding hand_over
  hand_over-ipc c none = refl
  hand_over-ipc c (some w) = elim (Bool-cases (is_panel sp c w)) [
    | inl e ↦ rw e refl
    | inr e ↦ rw e (activate_window-ipc c w)
  ]

  handed-ipc : (c : Compositor S) (s : Option ℕ) → (handed sp c s).ipc ≡ c.ipc
  unfolding handed
  handed-ipc c none = refl
  handed-ipc c (some s) = elim (Bool-cases (is_panel_surface sp c s)) [
    | inl e ↦ rw e (hand_over-ipc c (last (elements_of sp c)))
    | inr e ↦ rw e refl
  ]

  pub fit_panels-ipc : (c : Compositor S) → (fit_panels sp c).ipc ≡ c.ipc
  unfolding fit_panels
  fit_panels-ipc c =
      let c' = place_windows sp c true none in
      handed-ipc c' (current_focus sp c') ∙ place_windows-ipc c true none

  shown-ipc : (c : Compositor S) (w : Window) (first : Bool) → (shown sp c w first).ipc ≡ c.ipc
  unfolding shown
  shown-ipc c w first = elim (Bool-cases (is_panel sp c w)) [
    | inl e ↦ rw e (fit_panels-ipc c)
    | inr e ↦ rw e (behind_or_front first)
  ]
    where
      behind_or_front :
          (b : Bool)
          → (if b
              then activate_window sp (layout_app_windows sp c) w
              else place_windows sp c false (some w)).ipc
            ≡ c.ipc
      behind_or_front true =
          activate_window-ipc (layout_app_windows sp c) w ∙ place_windows-ipc c false none
      behind_or_front false = place_windows-ipc c false (some w)

  set_focus-ipc : (c : Compositor S) (s : Option ℕ) → (set_focus sp s c).ipc ≡ c.ipc
  unfolding set_focus
  set_focus-ipc c s = elim (Bool-cases c.keyboard) [ inl e ↦ rw e refl | inr e ↦ rw e refl ]

  give_focus-ipc : (c : Compositor S) (w : Option Window) → (give_focus sp c w).ipc ≡ c.ipc
  unfolding give_focus
  give_focus-ipc c none = set_focus-ipc c none
  give_focus-ipc c (some w) = activate_window-ipc c w

  refocus-ipc : (c : Compositor S) (t : ℕ) (s : Option ℕ) → (refocus sp c t s).ipc ≡ c.ipc
  unfolding refocus
  refocus-ipc c t none = give_focus-ipc c (next_front sp c)
  refocus-ipc c t (some s) = elim (Bool-cases (s == t)) [
    | inl e ↦ rw e (give_focus-ipc c (next_front sp c))
    | inr e ↦ rw e refl
  ]

  pub closed-ipc : (c : Compositor S) (t : ℕ) (w : Option Window) → (closed sp c t w).ipc ≡ c.ipc
  unfolding closed
  closed-ipc c t none = refl
  closed-ipc c t (some w) = refocus-ipc _ t _

  pub first_window-refused :
      (c : Compositor S) (w : Window) (i : ℕ)
      → w.session ≡ some i
      → spent c.ipc i ≡ true
      → first_window sp c w.session ≡ (c.ipc, false)
  unfolding first_window
  first_window-refused c w i e h = rw e (take_focus-refused c.ipc i h)

  pub map_new_window-spent :
      (c : Compositor S) (w : Window) (i : ℕ)
      → w.session ≡ some i
      → spent (map_new_window sp c w).ipc i ≡ true
  unfolding map_new_window first_window
  map_new_window-spent c w i e = rw (shown-ipc _ w _, e) (take_focus-spent c.ipc i)

  pub map_new_window-keeps :
      (c : Compositor S) (w : Window) (i : ℕ)
      → spent c.ipc i ≡ true
      → spent (map_new_window sp c w).ipc i ≡ true
  unfolding map_new_window first_window
  map_new_window-keeps c w i h = elim (Option-cases w.session) [
    | inl e ↦ rw (shown-ipc _ w _, e) h
    | inr (j, e) ↦ rw (shown-ipc _ w _, e) (take_focus-keeps c.ipc i j h)
  ]

  pub send_close-ipc : (c : Compositor S) (w : Option Window) → (send_close sp c w).ipc ≡ c.ipc
  unfolding send_close
  send_close-ipc c none = refl
  send_close-ipc c (some w) = elim (Bool-cases w.has_toplevel) [
    | inl e ↦ rw e refl
    | inr e ↦ rw e refl
  ]
