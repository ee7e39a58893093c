-- ===== src/Manager/Locked/Windows.antt =====
-- The windows of a locked screen saver come and go, and it stays locked
-- (src/gs-manager.c, src/gs-window.c).
use xfce4_screensaver.Base.{
  ℕ, suc, ◌≡◌, Bool, true, false, not, List, [], ◌∷◌, ◌++◌, All-map, All-append, if_elim, arith,
  ◌==◌, refl, none, Option, String,
}
use xfce4_screensaver.Base.Int.{eqb_ℤ}
use xfce4_screensaver.Prefs.{mode_random}
use xfce4_screensaver.Window
use xfce4_screensaver.Window.{Window, cancel, accept}
use xfce4_screensaver.Window.Dialog
use xfce4_screensaver.Window.Dialog.{
  Line, window_id, notice, response_ok, response_cancel, request_quit, other, Read, line,
  end_of_file, read_error, read_again, hang_up, read_line,
}
use xfce4_screensaver.Manager.{Manager, Platform, update_window}
use mathlib.Core.Option
use xfce4_screensaver.SessionLock
use xfce4_screensaver.Grab.{overlay_window}
use xfce4_screensaver.Job.{new_for_widget}
use xfce4_screensaver.Manager.Jobs.{remove_all_jobs, insert_job, replaced}
use xfce4_screensaver.Manager.Locker.{
  add_lock_timer, remove_lock_timer, add_cycle_timer, remove_cycle_timer, enable_locker,
}
use xfce4_screensaver.Manager.Tables.{All-update_window}
use xfce4_screensaver.Manager.Dialogs
use xfce4_screensaver.Manager.Dialogs.{popdown_window}
use xfce4_screensaver.Manager.Windows.{
  manager_show_window, show_window, create_window_for_monitor, create_each, destroy_window,
  destroy_each, remove_all_windows, recreate_windows, remove_lock_surfaces, show_windows,
}
use xfce4_screensaver.Manager.Locked.{
  Kept, IsLocked, with_windows, handle_window_dialog_down-IsLocked,
}

pub set_lock_active-Kept : (x : Window) → Kept x → Kept (Window.set_lock_active true x)
unfolding Window.set_lock_active
set_lock_active-Kept x k = ground arith

new-Kept :
    (id monitor : ℕ) (message : Option String) (on : Bool)
    → on ≡ true
    → Kept (Window.set_lock_active on (Window.set_status_message message (Window.new id monitor)))
unfolding Window.set_lock_active Window.set_status_message Window.new
new-Kept id monitor message true e = (refl, refl, refl)
new-Kept id monitor message false e = cc

module _ {Grab : Type 0} (P : Platform Grab) where
  pub enable_locker-IsLocked : (m : Manager Grab) → IsLocked m → IsLocked (enable_locker true m)
  unfolding enable_locker
  enable_locker-IsLocked m h = record {
    is_on = h.is_on;
    is_locked = refl;
    no_idle = h.no_idle;
    kept = All-map Kept (Window.set_lock_active true) m.windows set_lock_active-Kept h.kept;
  }

  pub add_lock_timer-IsLocked :
      (n : ℕ) (m : Manager Grab) → IsLocked m → IsLocked (add_lock_timer n m)
  unfolding add_lock_timer
  add_lock_timer-IsLocked n m h =
      if_elim IsLocked (not m.prefs.lock_enabled) (λ _. h)
        λ _.
          if_elim IsLocked (not m.prefs.lock_with_saver_enabled) (λ _. h)
            λ _.
              if_elim IsLocked m.lock_active (λ _. h)
                λ _. if_elim IsLocked (n == 0) (λ _. enable_locker-IsLocked m h) (λ _. h)

  pub manager_show_window-IsLocked :
      (id : ℕ) (m : Manager Grab) → IsLocked m → IsLocked (manager_show_window P id m)
  unfolding manager_show_window remove_lock_timer add_cycle_timer remove_cycle_timer
  manager_show_window-IsLocked id m h =
      let with_job = record m {
        lock_timer = none;
        jobs = insert_job id (new_for_widget P.job_env id) m.jobs;
        reaped = replaced id m.jobs ++ m.reaped;
      } in
      let h' : IsLocked (add_lock_timer m.prefs.lock_timeout with_job) =
        add_lock_timer-IsLocked m.prefs.lock_timeout with_job h in
      if_elim IsLocked (eqb_ℤ m.prefs.mode mode_random) (λ _. h') (λ _. h')

  real_show-Kept : (x : Window) → Kept x → Kept (Window.real_show x)
  unfolding Window.real_show
  real_show-Kept x k = k

  pub show_window-IsLocked :
      (x : Window) (m : Manager Grab) → IsLocked m → IsLocked (show_window P x m)
  unfolding show_window
  show_window-IsLocked x m h =
      let shown = record m {
        windows = update_window x.id Window.real_show m.windows;
        lock_manager = Option.map (SessionLock.add_window x.id) m.lock_manager;
      } in
      let h' : IsLocked shown =
        with_windows h
          (All-update_window Kept x.id Window.real_show m.windows real_show-Kept h.kept) in
      if_elim IsLocked x.visible (λ _. h) (λ _. manager_show_window-IsLocked x.id shown h')

  pub create_window_for_monitor-IsLocked :
      (monitor : ℕ) (m : Manager Grab)
      → IsLocked m
      → IsLocked (create_window_for_monitor P monitor m)
  unfolding create_window_for_monitor
  create_window_for_monitor-IsLocked monitor m h =
      let x =
        Window.set_lock_active m.lock_active
          (Window.set_status_message m.status_message (Window.new m.next_id monitor)) in
      let k : Kept x = new-Kept m.next_id monitor m.status_message m.lock_active h.is_locked in
      let inserted = record m { windows = m.windows ++ x ∷ []; next_id = suc m.next_id } in
      let h' : IsLocked inserted =
        with_windows h (All-append Kept m.windows (x ∷ []) h.kept (k, tt)) in
      if_elim IsLocked m.active (λ _. show_window-IsLocked x inserted h') (λ _. h')

  pub create_each-IsLocked :
      (monitors : List ℕ) (m : Manager Grab) → IsLocked m → IsLocked (create_each P monitors m)
  unfolding create_each
  create_each-IsLocked [] m h = h
  create_each-IsLocked (monitor ∷ monitors) m h =
      create_each-IsLocked monitors (create_window_for_monitor P monitor m)
        (create_window_for_monitor-IsLocked monitor m h)

  pub destroy_window-IsLocked :
      (x : Window) (m : Manager Grab) → IsLocked m → IsLocked (destroy_window P x m)
  unfolding destroy_window
  destroy_window-IsLocked x m h =
      if_elim IsLocked (Dialog.popdown_start x).0
        (λ _. handle_window_dialog_down-IsLocked P x.id m h) (λ _. h)

  pub destroy_each-IsLocked :
      (xs : List Window) (m : Manager Grab) → IsLocked m → IsLocked (destroy_each P xs m)
  unfolding destroy_each
  destroy_each-IsLocked [] m h = h
  destroy_each-IsLocked (x ∷ xs) m h =
      destroy_each-IsLocked xs (destroy_window P x m) (destroy_window-IsLocked x m h)

  pub recreate_windows-IsLocked : (m : Manager Grab) → IsLocked m → IsLocked (recreate_windows P m)
  unfolding recreate_windows remove_all_windows remove_lock_surfaces remove_all_jobs
      Dialogs.move_grab
  recreate_windows-IsLocked m h =
      let cleared =
        remove_lock_surfaces P (remove_all_jobs (Dialogs.move_grab P overlay_window false m)) in
      let removed = remove_all_windows P cleared in
      let h' : IsLocked removed =
        destroy_each-IsLocked m.windows (record cleared { windows = [] }) (with_windows h tt) in
      create_each-IsLocked m.display.monitors removed h'

  pub show_windows-IsLocked :
      (xs : List Window) (m : Manager Grab) → IsLocked m → IsLocked (show_windows P xs m)
  unfolding show_windows
  show_windows-IsLocked [] m h = h
  show_windows-IsLocked (x ∷ xs) m h =
      show_windows-IsLocked xs (show_window P x m) (show_window-IsLocked x m h)
