-- ===== src/Windows/Once.antt =====
-- A session takes the focus at most once by mapping windows.
use weft_os.Base.{ℕ}
use weft_os.Windows.{
  Window, Space, Compositor, activate_window, activate_panel, activate_session,
  close_focused_window, close_session_windows,
}
use weft_os.Windows.Layout.{layout_app_windows, fit_panels, map_new_window, window_closed}

-- What may happen to the windows while the supervisor keeps its sessions.
pub data Step {S : Type 0} (sp : Space S) : Compositor S → Compositor S → Type 0 where
  new_window : (c : Compositor S) (w : Window) → Step sp c (map_new_window sp c w)
  window_gone : (c : Compositor S) (surface : ℕ) → Step sp c (window_closed sp c surface)
  clicked : (c : Compositor S) (w : Window) → Step sp c (activate_window sp c w)
  home : (c : Compositor S) → Step sp c (activate_panel sp c).0
  session_activated : (c : Compositor S) (i : ℕ) → Step sp c (activate_session sp c i).0
  close_asked : (c : Compositor S) → Step sp c (close_focused_window sp c)
  session_closed : (c : Compositor S) (i : ℕ) → Step sp c (close_session_windows sp c i).0
  panel_registered : (c : Compositor S) → Step sp c (fit_panels sp c)
  laid_out : (c : Compositor S) → Step sp c (layout_app_windows sp c)

pub data Steps {S : Type 0} (sp : Space S) : Compositor S → Compositor S → Type 0 where
  done : (c : Compositor S) → Steps sp c c
  next : {a b c : Compositor S} → Steps sp a b → Step sp b c → Steps sp a c
