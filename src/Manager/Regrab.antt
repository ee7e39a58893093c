-- ===== src/Manager/Regrab.antt =====
-- The grab at a deactivation while the unlock dialog is up (src/gs-manager.c, src/gs-window.c).
use xfce4_screensaver.Base.{ℕ, ◌≡◌, true, false, Option, some, [], ◌∷◌, if_elim, refl, arith}
use mathlib.Core.Option
use xfce4_screensaver.Window.{Window}
use xfce4_screensaver.Window.Dialog
use xfce4_screensaver.Grab.{saver_window, GrabLaws}
use xfce4_screensaver.Manager.{Manager, Platform}
use xfce4_screensaver.Manager.Jobs.{remove_all_jobs}
use xfce4_screensaver.Manager.Locker.{remove_timers, enable_locker}
use xfce4_screensaver.Manager.Dialogs.{handle_window_dialog_down, move_grab}
use xfce4_screensaver.Manager.Windows.{
  destroy_window, destroy_each, remove_all_windows, remove_lock_surfaces, destroy_windows,
}
use xfce4_screensaver.Manager.Saver.{finish}

module _ {Grab : Type 0} (P : Platform Grab) where
  moved : ℕ → Option Grab → Option Grab
  moved id o = Option.map (P.grabs.move_to_window (saver_window id) false) o

  grab-handle_window_dialog_down :
      (id : ℕ) (m : Manager Grab) → (handle_window_dialog_down P id m).grab ≡ moved id m.grab
  unfolding handle_window_dialog_down move_grab moved
  grab-handle_window_dialog_down id m =
      if_elim (λ (r : Manager Grab). r.grab ≡ moved id m.grab) m.throttled (λ _. refl) (λ _. refl)

  notifies : (x : Window) → x.dialog_up ≡ true → (Dialog.popdown_start x).0 ≡ true
  unfolding Dialog.popdown_start
  notifies x up = ground arith

  grab-destroy_window :
      (x : Window) (m : Manager Grab)
      → x.dialog_up ≡ true
      → (destroy_window P x m).grab ≡ moved x.id m.grab
  unfolding destroy_window
  grab-destroy_window x m up =
      let told = notifies x up in
      if_elim (λ (r : Manager Grab). r.grab ≡ moved x.id m.grab) (Dialog.popdown_start x).0
        (λ _. grab-handle_window_dialog_down x.id m) (λ quiet. absurd (cc))

  grab-finish :
      (x : Window) (g : Grab) (m : Manager Grab)
      → x.dialog_up ≡ true
      → (finish P (record m { windows = x ∷ []; grab = some g })).grab
        ≡ moved x.id (some (P.grabs.release g))
  unfolding finish destroy_windows remove_all_windows remove_lock_surfaces destroy_each
      remove_all_jobs remove_timers enable_locker
  grab-finish x g m up =
      let before = record m { windows = x ∷ []; grab = some g } in
      let released = record (remove_timers before) {
        grab = Option.map P.grabs.release before.grab;
      } in
      let start =
        record (remove_lock_surfaces P
          (record (remove_all_jobs released) { watches_monitors = false })) { windows = [] } in
      grab-destroy_window x start up

  -- When a manager that has the grab is deactivated while the dialog of its one window is up, the
  -- grab is released and then taken again for that window, which is being destroyed.
  pub finish_regrabs :
      (laws : GrabLaws P.grabs) (x : Window) (g : Grab) (m : Manager Grab)
      → x.dialog_up ≡ true
      → (g' : Grab) × ((finish P (record m { windows = x ∷ []; grab = some g })).grab ≡ some g')
        × (P.grabs.holder g' ≡ some (saver_window x.id))
  unfolding moved
  finish_regrabs laws x g m up = (
    P.grabs.move_to_window (saver_window x.id) false (P.grabs.release g),
    grab-finish x g m up,
    laws.holder-move_to_window (saver_window x.id) false (P.grabs.release g),
  )
