-- ===== src/Manager/Active/Events.antt =====
-- The events of the main loop that leave the active flag as it is (src/gs-manager.c,
-- src/gs-window.c).
use xfce4_screensaver.Base.{
  ℕ, Bool, not, ◌≡◌, true, false, if_elim, if◌then◌else◌, option_elim, OnSome-anything, ◌==◌, ◌&&◌,
  ◌||◌, refl,
}
use xfce4_screensaver.Window
use xfce4_screensaver.Window.{Window, Response, accept, cancel}
use xfce4_screensaver.Manager.{Manager, Platform, Display, find_window}
use xfce4_screensaver.Manager.Jobs.{maybe_stop_job_for_window, maybe_start_job_for_window}
use xfce4_screensaver.Manager.Locker.{
  enable_locker, activate_lock_timeout, set_throttled, cycle, cycle_timeout, set_status_message,
  eqb,
}
use xfce4_screensaver.Manager.Dialogs.{move_grab, popup_dialog_idle, dialog_process_watch}
use xfce4_screensaver.Manager.Active.{
  Grows, Alike, request_unlock-Alike, popup_dialog_idle-Alike, dialog_process_watch-Alike,
  recreate_windows-Grows,
}
use xfce4_screensaver.Manager.Step.{
  window_grab_broken, Event, key_press, pointer_activity, lock_socket_shown, popup_idle,
  deactivated_idle, dialog_output, visibility, window_mapped, grab_broken, lock_timer_fires,
  cycle_timer_fires, manager_idle, monitors_changed, display_changed, prefs_changed,
  unlock_requested, cycle_requested, lock_enabled, throttle_changed, status_message,
  saver_activated, at_window, maybe_handle_activity, real_key_press, emit_deactivated_idle,
  visibility_notify, map_event, lock_timeout, cycle_timer, monitors_change, step,
}

-- The events at which the lock flag may be set while the saver is on: the lock timer, a request to lock
-- and a change of the monitors, whose new windows count as shown anew.
unfoldable pub may_lock : Event → Bool
may_lock lock_timer_fires = true
may_lock lock_enabled = true
may_lock (monitors_changed d) = true
may_lock _ = false

module _ {Grab : Type 0} (P : Platform Grab) where
  at_window-Alike :
      (id : ℕ) (f : Window → Manager Grab → Manager Grab) (m : Manager Grab)
      → ((x : Window) → Alike P m (f x m))
      → Alike P m (at_window P id f m)
  unfolding at_window
  at_window-Alike id f m each =
      option_elim (Alike P m) (λ _. Unit) (find_window id m.windows)
        (OnSome-anything (find_window id m.windows)) (refl, refl) (λ x _. each x)

  maybe_handle_activity-Alike :
      (x : Window) (m : Manager Grab) → Alike P m (maybe_handle_activity P x m)
  unfolding maybe_handle_activity
  maybe_handle_activity-Alike x m =
      if_elim (Alike P m) (not x.lock_socket && x.sensitive) (λ _. request_unlock-Alike P m)
        (λ _. (refl, refl))

  real_key_press-Alike :
      (code keyval : ℕ) (x : Window) (m : Manager Grab)
      → Alike P m (real_key_press P code keyval x m)
  unfolding real_key_press
  real_key_press-Alike code keyval x m =
      if_elim (Alike P m) (code == 101 || code == 212) (λ _. (refl, refl))
        (λ _. maybe_handle_activity-Alike x m)

  emit_deactivated_idle-Alike :
      (x : Window) (m : Manager Grab) → Alike P m (emit_deactivated_idle P x m)
  unfolding emit_deactivated_idle
  emit_deactivated_idle-Alike x m =
      if_elim (Alike P m) x.deactivated_idle (λ _. (refl, refl)) (λ _. (refl, refl))

  visibility_notify-Alike :
      (on : Bool) (x : Window) (m : Manager Grab) → Alike P m (visibility_notify P on x m)
  unfolding visibility_notify maybe_stop_job_for_window maybe_start_job_for_window
  visibility_notify-Alike on x m =
      if_elim (Alike P m) (not (Window.set_obscured on x).0) (λ _. (refl, refl))
        λ _. if_elim (Alike P m) on (λ _. (refl, refl)) (λ _. (refl, refl))

  map_event-Alike : (x : Window) (m : Manager Grab) → Alike P m (map_event P x m)
  unfolding map_event maybe_start_job_for_window move_grab
  map_event-Alike x m =
      if_elim (Alike P m) (x.monitor == m.display.pointer_monitor) (λ _. (refl, refl))
        (λ _. (refl, refl))

  window_grab_broken-Alike :
      (both : Bool) (m : Manager Grab) → Alike P m (window_grab_broken P both m)
  unfolding window_grab_broken
  window_grab_broken-Alike both m = if_elim (Alike P m) both (λ _. (refl, refl)) (λ _. (refl, refl))

  lock_timeout-Grows : (m : Manager Grab) → Grows P m (lock_timeout P m)
  unfolding lock_timeout activate_lock_timeout enable_locker
  lock_timeout-Grows m =
      let locks : Grows P m (activate_lock_timeout m) = (refl, λ on. refl) in
      option_elim (Grows P m) (λ _. Unit) m.lock_timer (OnSome-anything m.lock_timer) (refl, λ h. h)
        (λ _ _. locks)

  pub cycle-Alike : (m : Manager Grab) → Alike P m (cycle P m).1
  unfolding cycle
  cycle-Alike m =
      if_elim (λ (r : Bool × Manager Grab). Alike P m r.1)
        (not m.active || m.dialog_up || m.throttled) (λ _. (refl, refl)) (λ _. (refl, refl))

  cycle_timer-Alike : (m : Manager Grab) → Alike P m (cycle_timer P m)
  unfolding cycle_timer cycle_timeout
  cycle_timer-Alike m =
      option_elim (Alike P m) (λ _. Unit) m.cycle_timer (OnSome-anything m.cycle_timer) (refl, refl)
        λ _ _. if_elim (Alike P m) m.dialog_up (λ _. (refl, refl)) (λ _. cycle-Alike m)

  monitors_change-Grows : (d : Display) (m : Manager Grab) → Grows P m (monitors_change P d m)
  unfolding monitors_change
  monitors_change-Grows d m =
      if_elim (Grows P m) m.watches_monitors
        (λ _. recreate_windows-Grows P (record m { display = d })) (λ _. (refl, λ h. h))

  pub set_throttled-Alike : (on : Bool) (m : Manager Grab) → Alike P m (set_throttled P on m)
  unfolding set_throttled
  set_throttled-Alike on m =
      if_elim (Alike P m) (eqb m.throttled on) (λ _. (refl, refl))
        λ _. if_elim (Alike P m) m.dialog_up (λ _. (refl, refl)) (λ _. (refl, refl))

  -- The events after which the active flag may differ.
  abbrev pub IsQuiet : Event → Type 0
  IsQuiet manager_idle = ⊥
  IsQuiet (saver_activated on) = ⊥
  IsQuiet _ = Unit

  -- What becomes of the lock flag at an event that may set it, and at one that does not.
  abbrev pub Locks : Bool → Manager Grab → Manager Grab → Type 0
  Locks true m r = m.lock_active ≡ true → r.lock_active ≡ true
  Locks false m r = r.lock_active ≡ m.lock_active

  pub step-Locks :
      (e : Event) (m : Manager Grab)
      → IsQuiet e
      → ((step P e m).active ≡ m.active) × Locks (may_lock e) m (step P e m)
  unfolding may_lock step enable_locker set_status_message
  step-Locks (key_press id code keyval) m q =
      at_window-Alike id (real_key_press P code keyval) m
        (λ x. real_key_press-Alike code keyval x m)
  step-Locks (pointer_activity id) m q =
      at_window-Alike id (maybe_handle_activity P) m (λ x. maybe_handle_activity-Alike x m)
  step-Locks (lock_socket_shown id) m q = (refl, refl)
  step-Locks (popup_idle id) m q =
      at_window-Alike id (λ x m. if x.popup_dialog_idle then popup_dialog_idle P x m else m) m
        λ x.
          if_elim (Alike P m) x.popup_dialog_idle (λ _. popup_dialog_idle-Alike P x m)
            (λ _. (refl, refl))
  step-Locks (deactivated_idle id) m q =
      at_window-Alike id (emit_deactivated_idle P) m (λ x. emit_deactivated_idle-Alike x m)
  step-Locks (dialog_output id read) m q =
      at_window-Alike id (λ x m. if x.lock_watch then dialog_process_watch P read x m else m) m
        λ x.
          if_elim (Alike P m) x.lock_watch (λ _. dialog_process_watch-Alike P read x m)
            (λ _. (refl, refl))
  step-Locks (visibility id obscured) m q =
      at_window-Alike id (visibility_notify P obscured) m
        (λ x. visibility_notify-Alike obscured x m)
  step-Locks (window_mapped id) m q = at_window-Alike id (map_event P) m (λ x. map_event-Alike x m)
  step-Locks (grab_broken both) m q = window_grab_broken-Alike both m
  step-Locks lock_timer_fires m q = lock_timeout-Grows m
  step-Locks cycle_timer_fires m q = cycle_timer-Alike m
  step-Locks manager_idle m q = elim q [ ]
  step-Locks (monitors_changed d) m q = monitors_change-Grows d m
  step-Locks (display_changed d) m q = (refl, refl)
  step-Locks (prefs_changed p) m q = (refl, refl)
  step-Locks unlock_requested m q = request_unlock-Alike P m
  step-Locks cycle_requested m q = cycle-Alike m
  step-Locks lock_enabled m q = (refl, λ on. refl)
  step-Locks (throttle_changed on) m q = set_throttled-Alike on m
  step-Locks (status_message message) m q = (refl, refl)
  step-Locks (saver_activated on) m q = elim q [ ]

  pub step-As : (e : Event) (m : Manager Grab) → IsQuiet e → (step P e m).active ≡ m.active
  step-As e m q = (step-Locks e m q).0

  pub cycle-As : (m : Manager Grab) → (cycle P m).1.active ≡ m.active
  cycle-As m = (cycle-Alike m).0

  pub set_throttled-As : (on : Bool) (m : Manager Grab) → (set_throttled P on m).active ≡ m.active
  set_throttled-As on m = (set_throttled-Alike on m).0
