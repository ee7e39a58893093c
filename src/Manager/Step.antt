-- ===== src/Manager/Step.antt =====
-- src/gs-manager.c and src/gs-window.c: what happens to an active or inactive screen saver, one
-- event of the main loop at a time.
use xfce4_screensaver.Base.{
  ℕ, zero, suc, Bool, true, false, ◌&&◌, ◌||◌, not, Option, none, some, List, [], ◌∷◌, String, ◌==◌,
  if◌then◌else◌,
}
use mathlib.Core.Option
use xfce4_screensaver.Prefs.{Prefs}
use xfce4_screensaver.Window
use xfce4_screensaver.Window.{Window}
use xfce4_screensaver.Window.Dialog.{Read}
use xfce4_screensaver.Grab.{saver_window}
use xfce4_screensaver.Manager.{Manager, Platform, Display, find_window, update_window}
use xfce4_screensaver.Manager.Jobs.{maybe_start_job_for_window, maybe_stop_job_for_window}
use xfce4_screensaver.Manager.Locker.{
  enable_locker, activate_lock_timeout, set_throttled, set_status_message, cycle_timeout, cycle,
}
use xfce4_screensaver.Manager.Dialogs.{
  move_grab, request_unlock, popup_dialog_idle, dialog_process_watch,
}
use xfce4_screensaver.Manager.Windows.{recreate_windows}
use xfce4_screensaver.Manager.Saver.{activate_saver}

-- What the main loop brings to the manager and its windows. A window is named by its identity.
pub data Event : Type 0 where
  key_press : ℕ → ℕ → ℕ → Event
  pointer_activity : ℕ → Event
  lock_socket_shown : ℕ → Event
  popup_idle deactivated_idle : ℕ → Event
  dialog_output : ℕ → Read → Event
  visibility : ℕ → Bool → Event
  window_mapped : ℕ → Event
  grab_broken : Bool → Event
  lock_timer_fires cycle_timer_fires manager_idle : Event
  monitors_changed display_changed : Display → Event
  prefs_changed : Prefs → Event
  unlock_requested cycle_requested : Event
  lock_enabled : Event
  throttle_changed : Bool → Event
  status_message : Option String → Event
  saver_activated : Bool → Event

module _ {Grab : Type 0} (P : Platform Grab) where
  -- An event for a window that is gone is not delivered.
  unfoldable pub at_window :
      ℕ → (Window → Manager Grab → Manager Grab) → Manager Grab → Manager Grab
  at_window id f m = elim (find_window id m.windows) [ none ↦ m | some x ↦ f x m ]

  -- maybe_handle_activity, with the handler of "activity".
  unfoldable pub maybe_handle_activity : Window → Manager Grab → Manager Grab
  maybe_handle_activity x m = if not x.lock_socket && x.sensitive then (request_unlock P m).1 else m

  -- gs_window_real_key_press_event: the keys for the brightness are ignored.
  unfoldable pub real_key_press : ℕ → ℕ → Window → Manager Grab → Manager Grab
  unfolding maybe_handle_activity
  real_key_press hardware_keycode keyval x m =
      let handled = maybe_handle_activity x m in
      if hardware_keycode == 101 || hardware_keycode == 212 then m else record handled {
        windows = update_window x.id (Window.queue_key_event keyval) handled.windows;
      }

  -- emit_deactivated_idle, with window_deactivated_cb, which adds an idle source of its own.
  unfoldable pub emit_deactivated_idle : Window → Manager Grab → Manager Grab
  emit_deactivated_idle x m =
      if x.deactivated_idle
      then record m {
        deactivate_idles = suc m.deactivate_idles;
        windows = update_window x.id (λ y. record y { deactivated_idle = false }) m.windows;
      }
      else m

  -- window_deactivated_idle, once for each source.
  unfoldable pub window_deactivated_idle : ℕ → Manager Grab → Manager Grab
  window_deactivated_idle zero m = m
  window_deactivated_idle (suc n) m = (activate_saver P false (record m { deactivate_idles = n })).1

  -- gs_window_real_visibility_notify_event, with window_obscured_cb.
  unfoldable pub visibility_notify : Bool → Window → Manager Grab → Manager Grab
  visibility_notify obscured x m =
      let (notify, x') = Window.set_obscured obscured x in
      let changed = record m { windows = update_window x.id (λ _. x') m.windows } in
      if not notify
      then m
      else if obscured
      then maybe_stop_job_for_window x.id changed
      else maybe_start_job_for_window P x.id changed

  -- window_map_event_cb, with manager_maybe_grab_window: on X11 the window that the pointer is on
  -- takes the grab.
  unfoldable pub map_event : Window → Manager Grab → Manager Grab
  map_event x m =
      let grabbed =
        if x.monitor == m.display.pointer_monitor
        then move_grab P (saver_window x.id) false m
        else m in
      maybe_start_job_for_window P x.id grabbed

  -- window_grab_broken_cb: a grab that is broken for one device is forgotten unless the other
  -- device is still grabbed.
  unfoldable pub window_grab_broken : Bool → Manager Grab → Manager Grab
  window_grab_broken other_grabbed m =
      if other_grabbed then m else record m { grab = Option.map P.grabs.reset m.grab }

  unfoldable pub lock_timeout : Manager Grab → Manager Grab
  lock_timeout m = elim m.lock_timer [ none ↦ m | some _ ↦ activate_lock_timeout m ]

  unfoldable pub cycle_timer : Manager Grab → Manager Grab
  cycle_timer m = elim m.cycle_timer [ none ↦ m | some _ ↦ cycle_timeout P m ]

  -- on_display_monitor_added and on_display_monitor_removed, while they are connected.
  unfoldable pub monitors_change : Display → Manager Grab → Manager Grab
  monitors_change d m =
      let seen = record m { display = d } in
      if m.watches_monitors then recreate_windows P seen else seen

  unfoldable pub step : Event → Manager Grab → Manager Grab
  unfolding at_window maybe_handle_activity real_key_press emit_deactivated_idle
      window_deactivated_idle visibility_notify map_event window_grab_broken lock_timeout
      cycle_timer monitors_change
  step (key_press id code keyval) m = at_window id (real_key_press code keyval) m
  step (pointer_activity id) m = at_window id maybe_handle_activity m
  step (lock_socket_shown id) m = record m {
    windows = update_window id Window.forward_key_events m.windows;
  }
  step (popup_idle id) m =
      at_window id (λ x m. if x.popup_dialog_idle then popup_dialog_idle P x m else m) m
  step (deactivated_idle id) m = at_window id emit_deactivated_idle m
  step (dialog_output id read) m =
      at_window id (λ x m. if x.lock_watch then dialog_process_watch P read x m else m) m
  step (visibility id obscured) m = at_window id (visibility_notify obscured) m
  step (window_mapped id) m = at_window id map_event m
  step (grab_broken other) m = window_grab_broken other m
  step lock_timer_fires m = lock_timeout m
  step cycle_timer_fires m = cycle_timer m
  step manager_idle m = window_deactivated_idle m.deactivate_idles m
  step (monitors_changed d) m = monitors_change d m
  step (display_changed d) m = record m { display = record d { monitors = m.display.monitors } }
  step (prefs_changed p) m = record m { prefs = p }
  step unlock_requested m = (request_unlock P m).1
  step cycle_requested m = (cycle P m).1
  step lock_enabled m = enable_locker true m
  step (throttle_changed on) m = set_throttled P on m
  step (status_message message) m = set_status_message message m
  step (saver_activated on) m = (activate_saver P on m).1

  unfoldable pub run : List Event → Manager Grab → Manager Grab
  unfolding step
  run [] m = m
  run (e ∷ es) m = run es (step e m)
