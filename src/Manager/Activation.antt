-- ===== src/Manager/Activation.antt =====
-- What an activation makes of the screen saver (src/gs-manager.c): it is shown on every monitor, and
-- is locked at once where the settings say so.
pub mod Begin
pub mod Outcome
pub mod Taking
use xfce4_screensaver.Base.{
  ℕ, suc, ◌≡◌, Bool, true, false, ◌||◌, ◌&&◌, not, List, [], ◌∷◌, ◌++◌, map, All, All-append,
  All-map, if_elim, arith, ◌==◌, refl, none, ap, ◌∙◌, if◌then◌else◌, sym,
}
use xfce4_screensaver.Base.Int.{eqb_ℤ}
use mathlib.Core.Option
use xfce4_screensaver.Prefs.{mode_random}
use xfce4_screensaver.Job.{new_for_widget}
use xfce4_screensaver.Window
use xfce4_screensaver.Window.{Window}
use xfce4_screensaver.SessionLock
use xfce4_screensaver.Manager.{Manager, Platform, update_window}
use xfce4_screensaver.Manager.Jobs.{insert_job, replaced}
use xfce4_screensaver.Manager.Locker.{
  add_lock_timer, remove_lock_timer, add_cycle_timer, remove_cycle_timer, enable_locker,
}
use xfce4_screensaver.Manager.Tables.{All-update_window}
use xfce4_screensaver.Manager.Windows.{
  manager_show_window, show_window, show_windows, create_window_for_monitor, create_each,
}

abbrev pub monitors_of : List Window → List ℕ
monitors_of xs = map (λ (x : Window). x.monitor) xs

abbrev pub has_id : ℕ → List Window → Bool
has_id id [] = false
has_id id (x ∷ xs) = (x.id == id) || has_id id xs

-- A window is shown, or is among those still to be shown.
abbrev pub Due : List Window → Window → Type 0
Due xs y = (y.visible || has_id y.id xs) ≡ true

set_lock_active-Due :
    (xs : List Window) (y : Window) → Due xs y → Due xs (Window.set_lock_active true y)
unfolding Window.set_lock_active
set_lock_active-Due xs y h = ground arith

real_show-Due :
    (x : Window) (xs : List Window) (y : Window)
    → Due (x ∷ xs) y
    → Due xs (if y.id == x.id then Window.real_show y else y)
unfolding Window.real_show
real_show-Due x xs y h = ground arith

update_window-Due :
    (x : Window) (xs ys : List Window)
    → All (Due (x ∷ xs)) ys
    → All (Due xs) (update_window x.id Window.real_show ys)
update_window-Due x xs [] h = tt
update_window-Due x xs (y ∷ ys) h = (real_show-Due x xs y h.0, update_window-Due x xs ys h.1)

monitors-set_lock_active :
    (xs : List Window) → monitors_of (map (Window.set_lock_active true) xs) ≡ monitors_of xs
unfolding Window.set_lock_active
monitors-set_lock_active [] = refl
monitors-set_lock_active (x ∷ xs) = let rest = monitors-set_lock_active xs in ground arith

monitors-real_show :
    (id : ℕ) (xs : List Window)
    → monitors_of (update_window id Window.real_show xs) ≡ monitors_of xs
unfolding Window.real_show
monitors-real_show id [] = refl
monitors-real_show id (x ∷ xs) = let rest = monitors-real_show id xs in ground arith

module _ {Grab : Type 0} (P : Platform Grab) where
  -- Both facts of the windows that a show keeps: their monitors, and those that are due.
  abbrev Shown : List ℕ → List Window → List Window → Type 0
  Shown monitors due xs = (monitors_of xs ≡ monitors) × All (Due due) xs

  add_lock_timer-Shown :
      (monitors : List ℕ) (due : List Window) (n : ℕ) (m : Manager Grab)
      → Shown monitors due m.windows
      → Shown monitors due (add_lock_timer n m).windows
  unfolding add_lock_timer enable_locker
  add_lock_timer-Shown monitors due n m h =
      let R = λ (m : Manager Grab). Shown monitors due m.windows in
      if_elim R (not m.prefs.lock_enabled) (λ _. h)
        λ _.
          if_elim R (not m.prefs.lock_with_saver_enabled) (λ _. h)
            λ _.
              if_elim R m.lock_active (λ _. h)
                λ _.
                  if_elim R (n == 0)
                    (λ _. (
                      monitors-set_lock_active m.windows ∙ h.0,
                      All-map (Due due) (Window.set_lock_active true) m.windows
                          (set_lock_active-Due due) h.1,
                    ))
                    (λ _. h)

  show_window-Shown :
      (monitors : List ℕ) (x : Window) (due : List Window) (m : Manager Grab)
      → x.visible ≡ false
      → Shown monitors (x ∷ due) m.windows
      → Shown monitors due (show_window P x m).windows
  unfolding show_window manager_show_window remove_lock_timer add_cycle_timer remove_cycle_timer
  show_window-Shown monitors x due m hidden h =
      let R = λ (m : Manager Grab). Shown monitors due m.windows in
      let shown = record m {
        windows = update_window x.id Window.real_show m.windows;
        lock_manager = Option.map (SessionLock.add_window x.id) m.lock_manager;
        lock_timer = none;
        jobs = insert_job x.id (new_for_widget P.job_env x.id) m.jobs;
        reaped = replaced x.id m.jobs ++ m.reaped;
      } in
      let h' : R (add_lock_timer m.prefs.lock_timeout shown) =
        add_lock_timer-Shown monitors due m.prefs.lock_timeout shown
          (monitors-real_show x.id m.windows ∙ h.0, update_window-Due x due m.windows h.1) in
      if_elim R x.visible (λ seen. absurd (cc))
        (λ _. if_elim R (eqb_ℤ m.prefs.mode mode_random) (λ _. h') (λ _. h'))

  pub show_windows-Shown :
      (monitors : List ℕ) (xs : List Window) (m : Manager Grab)
      → All (λ x. x.visible ≡ false) xs
      → Shown monitors xs m.windows
      → Shown monitors [] (show_windows P xs m).windows
  unfolding show_windows
  show_windows-Shown monitors [] m hidden h = h
  show_windows-Shown monitors (x ∷ xs) m hidden h =
      show_windows-Shown monitors xs (show_window P x m) hidden.1
        (show_window-Shown monitors x xs m hidden.0 h)
