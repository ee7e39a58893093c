-- ===== src/Manager/Windows.antt =====
-- src/gs-manager.c: creating, showing and destroying the windows of the monitors.
use xfce4_screensaver.Base.{ℕ, suc, true, false, List, [], ◌∷◌, ◌++◌, if◌then◌else◌}
use mathlib.Core.Option
use xfce4_screensaver.Base.Int.{eqb_ℤ}
use xfce4_screensaver.Prefs.{mode_random}
use xfce4_screensaver.Job.{new_for_widget}
use xfce4_screensaver.Window
use xfce4_screensaver.Window.{Window}
use xfce4_screensaver.Window.Dialog
use xfce4_screensaver.SessionLock
use xfce4_screensaver.Grab.{overlay_window}
use xfce4_screensaver.Manager.{Manager, Platform, update_window}
use xfce4_screensaver.Manager.Jobs.{insert_job, replaced, remove_all_jobs}
use xfce4_screensaver.Manager.Locker.{
  remove_lock_timer, add_lock_timer, remove_cycle_timer, add_cycle_timer,
}
use xfce4_screensaver.Manager.Dialogs.{move_grab, handle_window_dialog_down}

module _ {Grab : Type 0} (P : Platform Grab) where
  -- manager_show_window, the handler of a window's "show".
  unfoldable pub manager_show_window : ℕ → Manager Grab → Manager Grab
  manager_show_window id m =
      let with_job = record m {
        jobs = insert_job id (new_for_widget P.job_env id) m.jobs;
        reaped = replaced id m.jobs ++ m.reaped;
      } in
      let locking = add_lock_timer m.prefs.lock_timeout (remove_lock_timer with_job) in
      if eqb_ℤ m.prefs.mode mode_random
      then add_cycle_timer m.prefs.cycle (remove_cycle_timer locking)
      else locking

  -- gtk_widget_show of a window: a window that is shown for the first time is realized, which on
  -- Wayland gives it a lock surface.
  unfoldable pub show_window : Window → Manager Grab → Manager Grab
  unfolding manager_show_window
  show_window x m =
      if x.visible
      then m
      else manager_show_window x.id (record m {
        windows = update_window x.id Window.real_show m.windows;
        lock_manager = Option.map (SessionLock.add_window x.id) m.lock_manager;
      })

  unfoldable pub show_windows : List Window → Manager Grab → Manager Grab
  unfolding show_window
  show_windows [] m = m
  show_windows (x ∷ xs) m = show_windows xs (show_window x m)

  -- gs_manager_create_window_for_monitor. The monitors of a display are distinct and the table has
  -- no window for this one, so the insertion replaces nothing.
  unfoldable pub create_window_for_monitor : ℕ → Manager Grab → Manager Grab
  unfolding show_window
  create_window_for_monitor monitor m =
      let x =
        Window.set_lock_active m.lock_active
          (Window.set_status_message m.status_message (Window.new m.next_id monitor)) in
      let inserted = record m { windows = m.windows ++ x ∷ []; next_id = suc m.next_id } in
      if m.active then show_window x inserted else inserted

  unfoldable pub create_each : List ℕ → Manager Grab → Manager Grab
  unfolding create_window_for_monitor
  create_each [] m = m
  create_each (monitor ∷ monitors) m = create_each monitors (create_window_for_monitor monitor m)

  -- gs_window_destroy, for a window that has left the table: a dialog that is up is taken down, and
  -- the manager hears of it.
  unfoldable pub destroy_window : Window → Manager Grab → Manager Grab
  destroy_window x m =
      let (notify, x') = Dialog.popdown_start x in
      let notified = if notify then handle_window_dialog_down P x.id m else m in
      record notified { destroyed = Dialog.popdown_rest x' ∷ notified.destroyed }

  unfoldable pub destroy_each : List Window → Manager Grab → Manager Grab
  unfolding destroy_window
  destroy_each [] m = m
  destroy_each (x ∷ xs) m = destroy_each xs (destroy_window x m)

  -- g_hash_table_remove_all of the windows: GLib empties the table before it destroys its values.
  unfoldable pub remove_all_windows : Manager Grab → Manager Grab
  unfolding destroy_each
  remove_all_windows m = destroy_each m.windows (record m { windows = [] })

  remove_surfaces : List Window → SessionLock.SessionLock → SessionLock.SessionLock
  remove_surfaces [] l = l
  remove_surfaces (x ∷ xs) l = remove_surfaces xs (SessionLock.remove_window x.id l)

  -- remove_window for each window, on Wayland.
  unfoldable pub remove_lock_surfaces : Manager Grab → Manager Grab
  unfolding remove_surfaces
  remove_lock_surfaces m = record m {
    lock_manager = Option.map (remove_surfaces m.windows) m.lock_manager;
  }

  -- recreate_windows. Giving up the input focus on X11 is not modelled.
  unfoldable pub recreate_windows : Manager Grab → Manager Grab
  unfolding remove_all_windows remove_lock_surfaces create_each
  recreate_windows m = create_each m.display.monitors (
      remove_all_windows
        (remove_lock_surfaces (remove_all_jobs (move_grab P overlay_window false m))))

  -- gs_manager_destroy_windows.
  unfoldable pub destroy_windows : Manager Grab → Manager Grab
  unfolding remove_all_windows remove_lock_surfaces
  destroy_windows m =
      record (remove_all_windows (remove_lock_surfaces (record m { watches_monitors = false }))) {
        overlay_shown = false;
      }

  -- gs_manager_create_windows.
  unfoldable pub create_windows : Manager Grab → Manager Grab
  unfolding create_each
  create_windows m = create_each m.display.monitors (record m {
    watches_monitors = true;
    overlay_shown = if m.display.wayland then m.overlay_shown else true;
  })
