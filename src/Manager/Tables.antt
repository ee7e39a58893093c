-- ===== src/Manager/Tables.antt =====
-- The tables of windows and jobs of src/gs-manager.c: what holds of every entry.
use xfce4_screensaver.Base.{ℕ, List, [], ◌∷◌, ◌==◌, All, OnSome, if_elim}
use xfce4_screensaver.Window.{Window}
use xfce4_screensaver.Manager.{Manager, Platform, find_window, update_window, find_monitor, Display}
use xfce4_screensaver.Manager.Dialogs.{first_active, find_window_at_pointer}

module _ (P : Window → Type 0) where
  pub All-update_window :
      (id : ℕ) (f : Window → Window) (xs : List Window)
      → ((x : Window) → P x → P (f x))
      → All P xs
      → All P (update_window id f xs)
  All-update_window id f [] keep h = tt
  All-update_window id f (x ∷ xs) keep h =
      (if_elim P (x.id == id) (λ _. keep x h.0) (λ _. h.0), All-update_window id f xs keep h.1)

  pub OnSome-find_window : (id : ℕ) (xs : List Window) → All P xs → OnSome P (find_window id xs)
  OnSome-find_window id [] h = tt
  OnSome-find_window id (x ∷ xs) h =
      if_elim (OnSome P) (x.id == id) (λ _. h.0) (λ _. OnSome-find_window id xs h.1)

  pub OnSome-find_monitor : (m : ℕ) (xs : List Window) → All P xs → OnSome P (find_monitor m xs)
  OnSome-find_monitor m [] h = tt
  OnSome-find_monitor m (x ∷ xs) h =
      if_elim (OnSome P) (x.monitor == m) (λ _. h.0) (λ _. OnSome-find_monitor m xs h.1)

  pub OnSome-first_active :
      (d : Display) (xs : List Window) → All P xs → OnSome P (first_active d xs)
  unfolding first_active
  OnSome-first_active d [] h = tt
  OnSome-first_active d (x ∷ []) h = h.0
  OnSome-first_active d (x ∷ y ∷ xs) h =
      if_elim (OnSome P) (d.is_active x.id) (λ _. h.0) (λ _. OnSome-first_active d (y ∷ xs) h.1)

  pub OnSome-find_window_at_pointer :
      {Grab : Type 0} (G : Platform Grab) (m : Manager Grab)
      → All P m.windows
      → OnSome P (find_window_at_pointer G m)
  unfolding find_window_at_pointer
  OnSome-find_window_at_pointer G m h =
      if_elim (OnSome P) m.display.wayland (λ _. OnSome-first_active m.display m.windows h)
        (λ _. OnSome-find_monitor m.display.pointer_monitor m.windows h)
