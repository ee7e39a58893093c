-- ===== src/Manager/Active.antt =====
-- Whether the screen saver is active changes only by an activation or a deactivation
-- (src/gs-manager.c, src/gs-window.c).
pub mod Events
use xfce4_screensaver.Base.{
  ℕ, zero, suc, ◌≡◌, Bool, true, false, not, List, [], ◌∷◌, ◌++◌, if_elim, if◌then◌else◌,
  option_elim, OnSome-anything, arith, ◌==◌, ◌&&◌, ◌||◌, refl, none, some, Option, ◌∙◌, String,
}
use mathlib.Core.Option
use xfce4_screensaver.Window
use xfce4_screensaver.Window.{Window, Response, accept, cancel}
use xfce4_screensaver.Window.Dialog
use xfce4_screensaver.Window.Dialog.{Read}
use xfce4_screensaver.SessionLock
use xfce4_screensaver.Job.{new_for_widget}
use xfce4_screensaver.Grab.{overlay_window}
use xfce4_screensaver.Manager.{Manager, Platform, Display, find_window, update_window}
use xfce4_screensaver.Manager.Jobs.{
  maybe_stop_job_for_window, maybe_start_job_for_window, insert_job, replaced, remove_all_jobs,
}
use xfce4_screensaver.Manager.Locker.{
  add_lock_timer, remove_lock_timer, add_cycle_timer, remove_cycle_timer, enable_locker,
  activate_lock_timeout, set_throttled, cycle, cycle_timeout, set_status_message, eqb,
}
use xfce4_screensaver.Manager.Dialogs.{
  handle_window_dialog_up, handle_window_dialog_down, move_grab, popdown_window, popup_dialog,
  popup_dialog_idle, window_request_unlock, request_unlock, find_window_at_pointer, finish_dialog,
  dialog_process_watch, read_dialog, run_dialog,
}
use xfce4_screensaver.Manager.Windows.{
  manager_show_window, show_window, create_window_for_monitor, create_each, destroy_window,
  destroy_each, remove_all_windows, remove_lock_surfaces, recreate_windows,
}
use xfce4_screensaver.Manager.Step.{
  Event, key_press, pointer_activity, lock_socket_shown, popup_idle, deactivated_idle,
  dialog_output, visibility, window_mapped, grab_broken, lock_timer_fires, cycle_timer_fires,
  manager_idle, monitors_changed, display_changed, prefs_changed, unlock_requested, cycle_requested,
  lock_enabled, throttle_changed, status_message, saver_activated, at_window, maybe_handle_activity,
  real_key_press, emit_deactivated_idle, window_deactivated_idle, visibility_notify, map_event,
  lock_timeout, cycle_timer, monitors_change, step, run,
}

module _ {Grab : Type 0} (P : Platform Grab) where
  -- The active flag and the lock flag are those of `m`.
  abbrev pub Alike : Manager Grab → Manager Grab → Type 0
  Alike m r = (r.active ≡ m.active) × (r.lock_active ≡ m.lock_active)

  -- The active flag is that of `m`, and the lock flag is not cleared.
  abbrev pub Grows : Manager Grab → Manager Grab → Type 0
  Grows m r = (r.active ≡ m.active) × (m.lock_active ≡ true → r.lock_active ≡ true)

  pub Grows-trans : (m r s : Manager Grab) → Grows m r → Grows r s → Grows m s
  Grows-trans m r s p q = (q.0 ∙ p.0, λ on. q.1 (p.1 on))

  pub handle_window_dialog_up-Alike :
      (id : ℕ) (m : Manager Grab) → Alike m (handle_window_dialog_up P id m)
  unfolding handle_window_dialog_up move_grab
  handle_window_dialog_up-Alike id m =
      if_elim (Alike m) m.throttled (λ _. (refl, refl)) (λ _. (refl, refl))

  pub handle_window_dialog_down-Alike :
      (id : ℕ) (m : Manager Grab) → Alike m (handle_window_dialog_down P id m)
  unfolding handle_window_dialog_down move_grab
  handle_window_dialog_down-Alike id m =
      if_elim (Alike m) m.throttled (λ _. (refl, refl)) (λ _. (refl, refl))

  pub popdown_window-Alike : (x : Window) (m : Manager Grab) → Alike m (popdown_window P x m)
  unfolding popdown_window
  popdown_window-Alike x m =
      let (notify, x') = Dialog.popdown_start x in
      let begun = record m { windows = update_window x.id (λ _. x') m.windows } in
      if_elim (Alike m) notify (λ _. handle_window_dialog_down-Alike x.id begun) (λ _. (refl, refl))

  pub window_request_unlock-Alike :
      (x : Window) (m : Manager Grab) → Alike m (window_request_unlock P x m)
  unfolding window_request_unlock
  window_request_unlock-Alike x m =
      let (notify, x') = Window.set_dialog_up true (Window.add_popup_dialog_idle x) in
      let risen = record m { windows = update_window x.id (λ _. x') m.windows } in
      if_elim (Alike m) (not x.visible) (λ _. (refl, refl))
        λ _.
          if_elim (Alike m) x.lock_watch (λ _. (refl, refl))
            λ _.
              if_elim (Alike m) (not x.lock_active) (λ _. (refl, refl))
                λ _.
                  if_elim (Alike m) notify (λ _. handle_window_dialog_up-Alike x.id risen)
                    (λ _. (refl, refl))

  pub request_unlock-Alike : (m : Manager Grab) → Alike m (request_unlock P m).1
  unfolding request_unlock
  request_unlock-Alike m =
      let R = λ (r : Bool × Manager Grab). Alike m r.1 in
      if_elim R (not m.active) (λ _. (refl, refl))
        λ _.
          if_elim R m.dialog_up (λ _. (refl, refl))
            λ _.
              option_elim R (λ _. Unit) (find_window_at_pointer P m)
                (OnSome-anything (find_window_at_pointer P m)) (refl, refl)
                (λ x _. window_request_unlock-Alike x m)

  pub popup_dialog_idle-Alike : (x : Window) (m : Manager Grab) → Alike m (popup_dialog_idle P x m)
  unfolding popup_dialog_idle popup_dialog
  popup_dialog_idle-Alike x m =
      if_elim (Alike m) (m.display.wayland && not (m.display.is_active x.id))
        (λ _. popdown_window-Alike x m) (λ _. (refl, refl))

  pub finish_dialog-Alike :
      (r : Response) (x : Window) (m : Manager Grab) → Alike m (finish_dialog P r x m)
  unfolding finish_dialog
  finish_dialog-Alike accept x m = (refl, refl)
  finish_dialog-Alike cancel x m = popdown_window-Alike x m

  pub dialog_process_watch-Alike :
      (read : Read) (x : Window) (m : Manager Grab) → Alike m (dialog_process_watch P read x m)
  unfolding dialog_process_watch
  dialog_process_watch-Alike read x m =
      let x' = (read_dialog P read m x).1 in
      let updated = record m { windows = update_window x.id (λ _. x') m.windows } in
      if_elim (Alike m) (read_dialog P read m x).0
        (λ _. finish_dialog-Alike x'.dialog_response x' updated) (λ _. (refl, refl))

  pub show_window-Grows : (x : Window) (m : Manager Grab) → Grows m (show_window P x m)
  unfolding show_window manager_show_window remove_lock_timer add_cycle_timer remove_cycle_timer
      add_lock_timer enable_locker
  show_window-Grows x m = ground arith

  pub create_window_for_monitor-Grows :
      (k : ℕ) (m : Manager Grab) → Grows m (create_window_for_monitor P k m)
  unfolding create_window_for_monitor
  create_window_for_monitor-Grows k m =
      let x =
        Window.set_lock_active m.lock_active
          (Window.set_status_message m.status_message (Window.new m.next_id k)) in
      let inserted = record m { windows = m.windows ++ x ∷ []; next_id = suc m.next_id } in
      if_elim (Grows m) m.active (λ _. show_window-Grows x inserted) (λ _. (refl, λ h. h))

  pub create_each-Grows : (ms : List ℕ) (m : Manager Grab) → Grows m (create_each P ms m)
  unfolding create_each
  create_each-Grows [] m = (refl, λ h. h)
  create_each-Grows (k ∷ ms) m =
      let r = create_window_for_monitor P k m in
      Grows-trans m r (create_each P ms r) (create_window_for_monitor-Grows k m)
        (create_each-Grows ms r)

  pub destroy_window-Grows : (x : Window) (m : Manager Grab) → Grows m (destroy_window P x m)
  unfolding destroy_window
  destroy_window-Grows x m =
      if_elim (Grows m) (Dialog.popdown_start x).0
        (λ _. (let h = handle_window_dialog_down-Alike x.id m in (h.0, λ on. h.1 ∙ on)))
        (λ _. (refl, λ h. h))

  pub destroy_each-Grows : (xs : List Window) (m : Manager Grab) → Grows m (destroy_each P xs m)
  unfolding destroy_each
  destroy_each-Grows [] m = (refl, λ h. h)
  destroy_each-Grows (x ∷ xs) m =
      let r = destroy_window P x m in
      Grows-trans m r (destroy_each P xs r) (destroy_window-Grows x m) (destroy_each-Grows xs r)

  pub recreate_windows-Grows : (m : Manager Grab) → Grows m (recreate_windows P m)
  unfolding recreate_windows remove_all_windows remove_lock_surfaces remove_all_jobs move_grab
  recreate_windows-Grows m =
      let bare = remove_lock_surfaces P (remove_all_jobs (move_grab P overlay_window false m)) in
      let emptied = remove_all_windows P bare in
      let gone = destroy_each-Grows bare.windows (record bare { windows = [] }) in
      Grows-trans m emptied (recreate_windows P m) (gone.0, λ on. gone.1 on)
        (create_each-Grows m.display.monitors emptied)

  pub request_unlock-As : (m : Manager Grab) → (request_unlock P m).1.active ≡ m.active
  request_unlock-As m = (request_unlock-Alike m).0
