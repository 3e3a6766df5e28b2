-- ===== src/Windows/Examples.antt =====
-- Two sessions with windows over a panel.
use weft_os.Base.{
  ◌≡◌, refl, ◌==◌, ==_refl, ℕ, Bool, true, false, ◌||◌, not, Bool-cases, inl, inr, List, [], ◌∷◌,
  ◌++◌, append_assoc, Option, none, some, any, filter, if◌then◌else◌, arith,
}
use weft_os.WorkArea.{Rectangle, top}
use weft_os.Windows.{
  Window, Panel, Ipc, Space, Compositor, same, activate_window, elements_of, close_session_windows,
}
use weft_os.Windows.Layout.{map_new_window, window_closed, app_geometry}
use weft_os.Windows.Stack.{without, among, Distinct}
use weft_os.Windows.Focus.{among-append}

abbrev Stacked : Type 0
Stacked = (ws : List Window) × Distinct ws

among-without :
    (v w : Window) (ws : List Window) → among v ws ≡ false → among v (without w ws) ≡ false
unfolding any filter
among-without v w [] h = refl
among-without v w (a ∷ ws) h = let rest = among-without v w ws (ground arith) in ground arith

moved-Distinct : (w : Window) (ws : List Window) → Distinct ws → Distinct (without w ws ++ w ∷ [])
unfolding filter
moved-Distinct w [] d = (unfold any in refl, tt)
moved-Distinct w (a ∷ ws) d = elim (Bool-cases (same a w)) [
  | inl e ↦ rw e (moved-Distinct w ws d.1)
  | inr e ↦ rw e (
    rw (among-append a (without w ws) (w ∷ []), among-without a w ws d.0)
        (unfold any in ground arith),
    moved-Distinct w ws d.1,
  )
]

without-Distinct : (w : Window) (ws : List Window) → Distinct ws → Distinct (without w ws)
unfolding filter
without-Distinct w [] d = tt
without-Distinct w (a ∷ ws) d = elim (Bool-cases (same a w)) [
  | inl e ↦ rw e (without-Distinct w ws d.1)
  | inr e ↦ rw e (among-without a w ws d.0, without-Distinct w ws d.1)
]

to_top : Window → Stacked → Stacked
to_top w s = (without w s.0 ++ w ∷ [], moved-Distinct w s.0 s.1)

abbrev screen : Space Stacked
unfolding to_top
screen = record {
  elements = λ s. s.0;
  element_location = λ s w. none;
  output = λ s. some (record { x = 0; y = 0; w = 800; h = 600 });
  raise_element = λ s w a. to_top w s;
  map_element = λ s w l a. to_top w s;
  unmap_elem = λ s w. (without w s.0, without-Distinct w s.0 s.1);
}

abbrev shell : Window
shell = record { id = 1; surface = some 11; has_toplevel = true; session = none }

abbrev notes : Window
notes = record { id = 2; surface = some 12; has_toplevel = true; session = some 1 }

abbrev mail : Window
mail = record { id = 3; surface = some 13; has_toplevel = true; session = some 2 }

abbrev notes_again : Window
notes_again = record { id = 4; surface = some 14; has_toplevel = true; session = some 1 }

abbrev start : Compositor Stacked
start = record {
  space = (shell ∷ [], (unfold any in refl, tt));
  keyboard = true;
  focus = some 11;
  panels = record { alive = true; surface = some 11; zone = some (top, 30) } ∷ [];
  ipc = some (record { sessions = 1 ∷ 2 ∷ []; focused_on_map = [] });
  sent = [];
}

abbrev with_notes : Compositor Stacked
with_notes = map_new_window screen start notes

abbrev with_mail : Compositor Stacked
with_mail = map_new_window screen with_notes mail

notes_in_front : with_notes.focus ≡ some 12
unfolding map_new_window weft_os.Windows.is_panel any weft_os.Windows.take_focus_on_map
    activate_window weft_os.Windows.Layout.place_windows weft_os.Windows.Layout.order screen filter
    weft_os.WorkArea.work_area
notes_in_front = refl

mail_in_front :
    (with_mail.focus ≡ some 13) × (elements_of screen with_mail ≡ shell ∷ notes ∷ mail ∷ [])
unfolding map_new_window weft_os.Windows.is_panel any weft_os.Windows.take_focus_on_map
    activate_window weft_os.Windows.Layout.place_windows weft_os.Windows.Layout.order screen filter
    weft_os.WorkArea.work_area
mail_in_front = (refl, refl)

mail_gone : (window_closed screen with_mail 13).focus ≡ some 12
unfolding map_new_window window_closed weft_os.Base.find screen weft_os.Windows.is_panel any
    weft_os.Windows.take_focus_on_map activate_window weft_os.Windows.Layout.place_windows
    weft_os.Windows.Layout.order filter weft_os.WorkArea.work_area weft_os.Windows.find_last
mail_gone = refl

geometry : app_geometry screen start ≡ record { x = 0; y = 30; w = 800; h = 570 }
unfolding app_geometry weft_os.WorkArea.work_area screen
geometry = refl
