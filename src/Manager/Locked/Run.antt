-- ===== src/Manager/Locked/Run.antt =====
-- Every event but an accepted dialog and a request to deactivate keeps the screen locked
-- (src/gs-manager.c, src/gs-window.c).
use xfce4_screensaver.Base.{
  ℕ, zero, suc, ◌≡◌, Bool, true, false, not, List, [], ◌∷◌, All, All-map, if_elim, if◌then◌else◌,
  option_elim, OnSome-anything, arith, ◌==◌, ◌&&◌, ◌||◌, Option, String,
}
use xfce4_screensaver.Window
use xfce4_screensaver.Window.{Window, cancel, accept, Response}
use xfce4_screensaver.Manager.{Manager, Platform, Display, update_window, find_window}
use xfce4_screensaver.Manager.Jobs.{maybe_stop_job_for_window, maybe_start_job_for_window}
use xfce4_screensaver.Manager.Locker.{
  activate_lock_timeout, enable_locker, eqb, set_throttled, cycle, cycle_timeout,
  set_status_message,
}
use xfce4_screensaver.Manager.Tables.{All-update_window, OnSome-find_window}
use xfce4_screensaver.Manager.Dialogs.{popup_dialog_idle, dialog_process_watch, move_grab}
use xfce4_screensaver.Manager.Saver.{activate_saver, activate, grab_devices, lock_session, begin}
use xfce4_screensaver.Manager.Step.{
  Event, key_press, pointer_activity, lock_socket_shown, popup_idle, deactivated_idle,
  dialog_output, visibility, window_mapped, grab_broken, lock_timer_fires, cycle_timer_fires,
  manager_idle, monitors_changed, display_changed, prefs_changed, unlock_requested, cycle_requested,
  lock_enabled, throttle_changed, status_message, saver_activated, at_window, maybe_handle_activity,
  real_key_press, emit_deactivated_idle, window_deactivated_idle, visibility_notify, map_event,
  window_grab_broken, lock_timeout, cycle_timer, monitors_change, step, run,
}
use xfce4_screensaver.Manager.Locked.{Kept, IsLocked, with_windows, request_unlock-IsLocked}
use xfce4_screensaver.Manager.Locked.Windows.{enable_locker-IsLocked, recreate_windows-IsLocked}
use xfce4_screensaver.Manager.Locked.Dialogs.{
  IsRefusal, queue_key_event-Kept, forward_key_events-Kept, popup_dialog_idle-IsLocked,
  dialog_process_watch-IsLocked,
}

module _ {Grab : Type 0} (P : Platform Grab) where
  maybe_handle_activity-IsLocked :
      (x : Window) (m : Manager Grab) → IsLocked m → IsLocked (maybe_handle_activity P x m)
  unfolding maybe_handle_activity
  maybe_handle_activity-IsLocked x m h =
      if_elim IsLocked (not x.lock_socket && x.sensitive) (λ _. request_unlock-IsLocked P m h)
        (λ _. h)

  real_key_press-IsLocked :
      (code keyval : ℕ) (x : Window) (m : Manager Grab)
      → IsLocked m
      → IsLocked (real_key_press P code keyval x m)
  unfolding real_key_press
  real_key_press-IsLocked code keyval x m h =
      let h' : IsLocked (maybe_handle_activity P x m) = maybe_handle_activity-IsLocked x m h in
      if_elim IsLocked (code == 101 || code == 212) (λ _. h)
        λ _. with_windows h' (
          All-update_window Kept x.id (Window.queue_key_event keyval)
            (maybe_handle_activity P x m).windows (queue_key_event-Kept keyval) h'.kept)

  emit_deactivated_idle-IsLocked :
      (x : Window) (m : Manager Grab) → Kept x → IsLocked m → IsLocked (emit_deactivated_idle P x m)
  unfolding emit_deactivated_idle
  emit_deactivated_idle-IsLocked x m k h =
      if_elim IsLocked x.deactivated_idle (λ e. absurd (cc)) (λ _. h)

  window_deactivated_idle-IsLocked :
      (n : ℕ) (m : Manager Grab) → n ≡ 0 → IsLocked m → IsLocked (window_deactivated_idle P n m)
  unfolding window_deactivated_idle
  window_deactivated_idle-IsLocked zero m e h = h
  window_deactivated_idle-IsLocked (suc n) m e h = absurd (omega arith)

  set_obscured-Kept : (on : Bool) (x : Window) → Kept x → Kept (Window.set_obscured on x).1
  unfolding Window.set_obscured
  set_obscured-Kept on x k = ground arith

  visibility_notify-IsLocked :
      (on : Bool) (x : Window) (m : Manager Grab)
      → Kept x
      → IsLocked m
      → IsLocked (visibility_notify P on x m)
  unfolding visibility_notify maybe_stop_job_for_window maybe_start_job_for_window
  visibility_notify-IsLocked on x m k h =
      let x' = (Window.set_obscured on x).1 in
      let changed = record m { windows = update_window x.id (λ _. x') m.windows } in
      let h' : IsLocked changed = with_windows h (
        All-update_window Kept x.id (λ _. x') m.windows (λ _ _. set_obscured-Kept on x k) h.kept) in
      if_elim IsLocked (not (Window.set_obscured on x).0) (λ _. h)
        λ _. if_elim IsLocked on (λ _. h') (λ _. h')

  map_event-IsLocked : (x : Window) (m : Manager Grab) → IsLocked m → IsLocked (map_event P x m)
  unfolding map_event maybe_start_job_for_window move_grab
  map_event-IsLocked x m h =
      if_elim IsLocked (x.monitor == m.display.pointer_monitor) (λ _. h) (λ _. h)

  at_window-IsLocked :
      (id : ℕ) (f : Window → Manager Grab → Manager Grab) (m : Manager Grab)
      → ((x : Window) → Kept x → IsLocked (f x m))
      → IsLocked m
      → IsLocked (at_window P id f m)
  unfolding at_window
  at_window-IsLocked id f m each h =
      option_elim IsLocked Kept (find_window id m.windows)
        (OnSome-find_window Kept id m.windows h.kept) h each

  -- What may happen while the screen is locked: all but an accepted dialog and a request to
  -- deactivate.
  abbrev pub IsHarmless : Event → Type 0
  IsHarmless (dialog_output id read) = IsRefusal P read
  IsHarmless (saver_activated false) = ⊥
  IsHarmless _ = Unit

  pub cycle-IsLocked : (m : Manager Grab) → IsLocked m → IsLocked (cycle P m).1
  unfolding cycle
  cycle-IsLocked m h =
      if_elim (λ (r : Bool × Manager Grab). IsLocked r.1)
        (not m.active || m.dialog_up || m.throttled) (λ _. h) (λ _. h)

  lock_timeout-IsLocked : (m : Manager Grab) → IsLocked m → IsLocked (lock_timeout P m)
  unfolding lock_timeout activate_lock_timeout
  lock_timeout-IsLocked m h =
      let h' : IsLocked (enable_locker true m) = enable_locker-IsLocked P m h in
      option_elim IsLocked (λ _. Unit) m.lock_timer (OnSome-anything m.lock_timer) h (λ _ _. h')

  cycle_timer-IsLocked : (m : Manager Grab) → IsLocked m → IsLocked (cycle_timer P m)
  unfolding cycle_timer cycle_timeout
  cycle_timer-IsLocked m h =
      option_elim IsLocked (λ _. Unit) m.cycle_timer (OnSome-anything m.cycle_timer) h
        λ _ _. if_elim IsLocked m.dialog_up (λ _. h) (λ _. cycle-IsLocked m h)

  monitors_change-IsLocked :
      (d : Display) (m : Manager Grab) → IsLocked m → IsLocked (monitors_change P d m)
  unfolding monitors_change
  monitors_change-IsLocked d m h =
      if_elim IsLocked m.watches_monitors
        (λ _. recreate_windows-IsLocked P (record m { display = d }) h) (λ _. h)

  pub set_throttled-IsLocked :
      (on : Bool) (m : Manager Grab) → IsLocked m → IsLocked (set_throttled P on m)
  unfolding set_throttled
  set_throttled-IsLocked on m h =
      if_elim IsLocked (eqb m.throttled on) (λ _. h)
        λ _. if_elim IsLocked m.dialog_up (λ _. h) (λ _. h)

  set_status_message-IsLocked :
      (message : Option String) (m : Manager Grab)
      → IsLocked m
      → IsLocked (set_status_message message m)
  unfolding set_status_message Window.set_status_message
  set_status_message-IsLocked message m h =
      with_windows h (All-map Kept (Window.set_status_message message) m.windows (λ _ k. k) h.kept)

  window_grab_broken-IsLocked :
      (both : Bool) (m : Manager Grab) → IsLocked m → IsLocked (window_grab_broken P both m)
  unfolding window_grab_broken
  window_grab_broken-IsLocked both m h = if_elim IsLocked both (λ _. h) (λ _. h)

  activate-IsLocked : (m : Manager Grab) → IsLocked m → IsLocked (activate P m).1
  unfolding activate
  activate-IsLocked m h =
      let grabbed = grab_devices P m in
      let taken = lock_session P grabbed.1 in
      if_elim (λ (r : Bool × Manager Grab). IsLocked r.1) m.active
        {b = if not grabbed.0
          then (false, grabbed.1)
          else if not taken.0
          then (false, taken.1)
          else (true, begin P taken.1)}
        (λ _. h) (λ e. let on = h.is_on in absurd (cc))

  pub step-IsLocked :
      (e : Event) (m : Manager Grab) → IsHarmless e → IsLocked m → IsLocked (step P e m)
  unfolding step activate_saver
  step-IsLocked (key_press id code keyval) m e h =
      at_window-IsLocked id (real_key_press P code keyval) m
        (λ x _. real_key_press-IsLocked code keyval x m h) h
  step-IsLocked (pointer_activity id) m e h =
      at_window-IsLocked id (maybe_handle_activity P) m
        (λ x _. maybe_handle_activity-IsLocked x m h) h
  step-IsLocked (lock_socket_shown id) m e h =
      with_windows h (
        All-update_window Kept id Window.forward_key_events m.windows forward_key_events-Kept
          h.kept)
  step-IsLocked (popup_idle id) m e h =
      at_window-IsLocked id (λ x m. if x.popup_dialog_idle then popup_dialog_idle P x m else m) m
        (λ x k.
          if_elim IsLocked x.popup_dialog_idle (λ _. popup_dialog_idle-IsLocked P x m k h) (λ _. h))
        h
  step-IsLocked (deactivated_idle id) m e h =
      at_window-IsLocked id (emit_deactivated_idle P) m
        (λ x k. emit_deactivated_idle-IsLocked x m k h) h
  step-IsLocked (dialog_output id read) m e h =
      at_window-IsLocked id (λ x m. if x.lock_watch then dialog_process_watch P read x m else m) m
        (λ x k.
          if_elim IsLocked x.lock_watch (λ _. dialog_process_watch-IsLocked P read x m e k h)
            (λ _. h))
        h
  step-IsLocked (visibility id obscured) m e h =
      at_window-IsLocked id (visibility_notify P obscured) m
        (λ x k. visibility_notify-IsLocked obscured x m k h) h
  step-IsLocked (window_mapped id) m e h =
      at_window-IsLocked id (map_event P) m (λ x _. map_event-IsLocked x m h) h
  step-IsLocked (grab_broken both) m e h = window_grab_broken-IsLocked both m h
  step-IsLocked lock_timer_fires m e h = lock_timeout-IsLocked m h
  step-IsLocked cycle_timer_fires m e h = cycle_timer-IsLocked m h
  step-IsLocked manager_idle m e h =
      window_deactivated_idle-IsLocked m.deactivate_idles m h.no_idle h
  step-IsLocked (monitors_changed d) m e h = monitors_change-IsLocked d m h
  step-IsLocked (display_changed d) m e h = h
  step-IsLocked (prefs_changed p) m e h = h
  step-IsLocked unlock_requested m e h = request_unlock-IsLocked P m h
  step-IsLocked cycle_requested m e h = cycle-IsLocked m h
  step-IsLocked lock_enabled m e h = enable_locker-IsLocked P m h
  step-IsLocked (throttle_changed on) m e h = set_throttled-IsLocked on m h
  step-IsLocked (status_message message) m e h = set_status_message-IsLocked message m h
  step-IsLocked (saver_activated true) m e h = activate-IsLocked m h
  step-IsLocked (saver_activated false) m e h = elim e [ ]

  -- Whatever happens to a screen saver that is active and locked, in any order and any number of
  -- times, other than a request to deactivate it or a dialog that answers OK: it is active and
  -- locked afterwards, each window of its monitors is locked, and no deactivation is under way.
  pub run-IsLocked :
      (es : List Event) (m : Manager Grab) → All IsHarmless es → IsLocked m → IsLocked (run P es m)
  unfolding run
  run-IsLocked [] m e h = h
  run-IsLocked (e ∷ es) m hs h = run-IsLocked es (step P e m) hs.1 (step-IsLocked e m hs.0 h)
