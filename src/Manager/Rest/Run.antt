-- ===== src/Manager/Rest/Run.antt =====
-- A screen saver at rest stays so until it is activated (src/gs-manager.c).
use xfce4_screensaver.Base.{
  ℕ, zero, suc, ◌≡◌, Bool, true, false, not, List, [], ◌∷◌, All, if_elim, option_elim, OnSome,
  arith, ◌||◌, refl, Option, ap, map, String, if◌then◌else◌,
}
use xfce4_screensaver.Window
use xfce4_screensaver.Window.{Window}
use xfce4_screensaver.Job.{Job}
use xfce4_screensaver.Manager.{Manager, Platform, Display, find_window, update_window}
use xfce4_screensaver.Manager.Jobs.{for_jobs, throttle_job}
use xfce4_screensaver.Manager.Locker.{enable_locker, set_throttled, eqb, cycle, set_status_message}
use xfce4_screensaver.Manager.Dialogs.{request_unlock, popup_dialog_idle, dialog_process_watch}
use xfce4_screensaver.Manager.Saver.{deactivate, activate_saver}
use xfce4_screensaver.Manager.Step.{
  Event, key_press, pointer_activity, lock_socket_shown, popup_idle, deactivated_idle,
  dialog_output, visibility, window_mapped, grab_broken, lock_timer_fires, cycle_timer_fires,
  manager_idle, monitors_changed, display_changed, prefs_changed, unlock_requested, cycle_requested,
  lock_enabled, throttle_changed, status_message, saver_activated, at_window, maybe_handle_activity,
  real_key_press, emit_deactivated_idle, window_deactivated_idle, visibility_notify, map_event,
  lock_timeout, cycle_timer, monitors_change, step, run,
}
use xfce4_screensaver.Manager.Rest.{Cleared, IsAtRest}

module _ {Grab : Type 0} (P : Platform Grab) where
  at_window-IsAtRest :
      (id : ℕ) (f : Window → Manager Grab → Manager Grab) (m : Manager Grab)
      → IsAtRest P m
      → IsAtRest P (at_window P id f m)
  unfolding at_window
  at_window-IsAtRest id f m h =
      let no_windows = h.3.no_windows in
      let nobody : OnSome {0, 0} (λ _. ⊥) (find_window id m.windows) = rw no_windows tt in
      option_elim (IsAtRest P) (λ _. ⊥) (find_window id m.windows) nobody h
        (λ _ impossible. absurd impossible)

  lock_timeout-IsAtRest : (m : Manager Grab) → IsAtRest P m → IsAtRest P (lock_timeout P m)
  unfolding lock_timeout
  lock_timeout-IsAtRest m h =
      let none_set : OnSome {0, 0} (λ _. ⊥) m.lock_timer = rw h.3.no_lock_timer tt in
      option_elim (IsAtRest P) (λ _. ⊥) m.lock_timer none_set h (λ _ impossible. absurd impossible)

  cycle_timer-IsAtRest : (m : Manager Grab) → IsAtRest P m → IsAtRest P (cycle_timer P m)
  unfolding cycle_timer
  cycle_timer-IsAtRest m h =
      let none_set : OnSome {0, 0} (λ _. ⊥) m.cycle_timer = rw h.3.no_cycle_timer tt in
      option_elim (IsAtRest P) (λ _. ⊥) m.cycle_timer none_set h (λ _ impossible. absurd impossible)

  request_unlock_refused : (m : Manager Grab) → m.active ≡ false → request_unlock P m ≡ (false, m)
  unfolding request_unlock
  request_unlock_refused m off =
      if_elim (λ (r : Bool × Manager Grab). r ≡ (false, m)) (not m.active) (λ _. refl)
        (λ on. absurd (ground arith))

  cycle_refused : (m : Manager Grab) → m.active ≡ false → cycle P m ≡ (false, m)
  unfolding cycle
  cycle_refused m off =
      if_elim (λ (r : Bool × Manager Grab). r ≡ (false, m))
        (not m.active || m.dialog_up || m.throttled) (λ _. refl) (λ on. absurd (ground arith))

  deactivate_nothing : (m : Manager Grab) → m.active ≡ false → deactivate P m ≡ (true, m)
  unfolding deactivate
  deactivate_nothing m off =
      if_elim (λ (r : Bool × Manager Grab). r ≡ (true, m)) m.active (λ on. absurd (cc)) (λ _. refl)

  deactivate-StaysAtRest : (m : Manager Grab) → IsAtRest P m → IsAtRest P (deactivate P m).1
  deactivate-StaysAtRest m h = rw (deactivate_nothing m h.0) h

  request_unlock-IsAtRest : (m : Manager Grab) → IsAtRest P m → IsAtRest P (request_unlock P m).1
  request_unlock-IsAtRest m h = rw (request_unlock_refused m h.0) h

  cycle-IsAtRest : (m : Manager Grab) → IsAtRest P m → IsAtRest P (cycle P m).1
  cycle-IsAtRest m h = rw (cycle_refused m h.0) h

  window_deactivated_idle-IsAtRest :
      (n : ℕ) (m : Manager Grab) → IsAtRest P m → IsAtRest P (window_deactivated_idle P n m)
  unfolding window_deactivated_idle activate_saver
  window_deactivated_idle-IsAtRest zero m h = h
  window_deactivated_idle-IsAtRest (suc n) m h =
      deactivate-StaysAtRest (record m { deactivate_idles = n }) h

  with-Cleared :
      {xs ys : List Window} {js ks : List (ℕ × Job)} {l c : Option ℕ}
      → Cleared xs js l c
      → ys ≡ []
      → ks ≡ []
      → Cleared ys ks l c
  with-Cleared h a b = record {
    no_windows = a;
    no_jobs = b;
    no_lock_timer = h.no_lock_timer;
    no_cycle_timer = h.no_cycle_timer;
  }

  set_throttled-IsAtRest :
      (on : Bool) (m : Manager Grab) → IsAtRest P m → IsAtRest P (set_throttled P on m)
  unfolding set_throttled for_jobs
  set_throttled-IsAtRest on m h =
      let changed = record m { throttled = on } in
      let no_jobs : for_jobs (throttle_job P changed) m.jobs ≡ [] =
        ap (for_jobs (throttle_job P changed)) h.3.no_jobs in
      if_elim (IsAtRest P) (eqb m.throttled on) (λ _. h)
        λ _.
          if_elim (IsAtRest P) m.dialog_up (λ _. h)
            (λ _. (h.0, h.1, h.2, with-Cleared h.3 h.3.no_windows no_jobs))

  set_status_message-IsAtRest :
      (message : Option String) (m : Manager Grab)
      → IsAtRest P m
      → IsAtRest P (set_status_message message m)
  unfolding set_status_message
  set_status_message-IsAtRest message m h =
      let none_left = ap (map (Window.set_status_message message)) h.3.no_windows in
      (h.0, h.1, h.2, with-Cleared h.3 none_left h.3.no_jobs)

  enable_locker-IsAtRest :
      (on : Bool) (m : Manager Grab) → IsAtRest P m → IsAtRest P (enable_locker on m)
  unfolding enable_locker
  enable_locker-IsAtRest on m h =
      let none_left = ap (map (Window.set_lock_active on)) h.3.no_windows in
      (h.0, h.1, h.2, with-Cleared h.3 none_left h.3.no_jobs)

  monitors_change-IsAtRest :
      (d : Display) (m : Manager Grab) → IsAtRest P m → IsAtRest P (monitors_change P d m)
  unfolding monitors_change
  monitors_change-IsAtRest d m h =
      if_elim (IsAtRest P) m.watches_monitors (λ e. let off = h.2 in absurd (cc)) (λ _. h)

  -- Every event but a request to activate.
  abbrev pub IsPassive : Event → Type 0
  IsPassive (saver_activated true) = ⊥
  IsPassive _ = Unit

  step-IsAtRest :
      (e : Event) (m : Manager Grab) → IsPassive e → IsAtRest P m → IsAtRest P (step P e m)
  unfolding step activate_saver
  step-IsAtRest (key_press id code keyval) m e h =
      at_window-IsAtRest id (real_key_press P code keyval) m h
  step-IsAtRest (pointer_activity id) m e h = at_window-IsAtRest id (maybe_handle_activity P) m h
  step-IsAtRest (lock_socket_shown id) m e h =
      let none_left = ap (update_window id Window.forward_key_events) h.3.no_windows in
      (h.0, h.1, h.2, with-Cleared h.3 none_left h.3.no_jobs)
  step-IsAtRest (popup_idle id) m e h =
      at_window-IsAtRest id (λ x m. if x.popup_dialog_idle then popup_dialog_idle P x m else m) m h
  step-IsAtRest (deactivated_idle id) m e h = at_window-IsAtRest id (emit_deactivated_idle P) m h
  step-IsAtRest (dialog_output id read) m e h =
      at_window-IsAtRest id (λ x m. if x.lock_watch then dialog_process_watch P read x m else m) m h
  step-IsAtRest (visibility id obscured) m e h =
      at_window-IsAtRest id (visibility_notify P obscured) m h
  step-IsAtRest (window_mapped id) m e h = at_window-IsAtRest id (map_event P) m h
  step-IsAtRest (grab_broken both) m e h = if_elim (IsAtRest P) both (λ _. h) (λ _. h)
  step-IsAtRest lock_timer_fires m e h = lock_timeout-IsAtRest m h
  step-IsAtRest cycle_timer_fires m e h = cycle_timer-IsAtRest m h
  step-IsAtRest manager_idle m e h = window_deactivated_idle-IsAtRest m.deactivate_idles m h
  step-IsAtRest (monitors_changed d) m e h = monitors_change-IsAtRest d m h
  step-IsAtRest (display_changed d) m e h = h
  step-IsAtRest (prefs_changed p) m e h = h
  step-IsAtRest unlock_requested m e h = request_unlock-IsAtRest m h
  step-IsAtRest cycle_requested m e h = cycle-IsAtRest m h
  step-IsAtRest lock_enabled m e h = enable_locker-IsAtRest true m h
  step-IsAtRest (throttle_changed on) m e h = set_throttled-IsAtRest on m h
  step-IsAtRest (status_message message) m e h = set_status_message-IsAtRest message m h
  step-IsAtRest (saver_activated true) m e h = elim e [ ]
  step-IsAtRest (saver_activated false) m e h = deactivate-StaysAtRest m h

  -- A screen saver at rest, with no window, job, timer or dialog, is at rest after any sequence of
  -- events that has no request to activate it.
  pub run-IsAtRest :
      (es : List Event) (m : Manager Grab)
      → All IsPassive es
      → IsAtRest P m
      → IsAtRest P (run P es m)
  unfolding run
  run-IsAtRest [] m e h = h
  run-IsAtRest (e ∷ es) m hs h = run-IsAtRest es (step P e m) hs.1 (step-IsAtRest e m hs.0 h)
