-- ===== src/Manager/Saver.antt =====
-- src/gs-manager.c: activating and deactivating the screen saver.
use xfce4_screensaver.Base.{Bool, true, false, ◌&&◌, not, none, some, ◌∷◌, ◌==◌, if◌then◌else◌}
use mathlib.Core.Option
use xfce4_screensaver.SessionLock
use xfce4_screensaver.SessionLock.{SessionLock}
use xfce4_screensaver.Manager.{Manager, Platform, activated, deactivated}
use xfce4_screensaver.Manager.Jobs.{remove_all_jobs}
use xfce4_screensaver.Manager.Locker.{enable_locker, remove_timers}
use xfce4_screensaver.Manager.Windows.{create_windows, show_windows, destroy_windows}

module _ {Grab : Type 0} (P : Platform Grab) where
  -- The grab of the devices on X11, and whether the activation may go on.
  unfoldable pub grab_devices : Manager Grab → Bool × Manager Grab
  grab_devices m = elim m.grab [
    | none ↦ (true, m)
    | some g ↦ let (res, g') = P.grabs.grab_root false g in (res, record m { grab = some g' })
  ]

  -- The lock of the session on Wayland, and whether the activation may go on.
  unfoldable pub lock_session : Manager Grab → Bool × Manager Grab
  lock_session m =
      if not m.display.wayland
      then (true, m)
      else if not m.compositor
      then (false, m)
      else elim m.lock_manager [
        | none ↦ (false, m)
        | some l ↦
            let (res, l') = SessionLock.lock P.lock_events l in
            (res, record m { lock_manager = some l' })
      ]

  -- gs_manager_activate once the devices and the session are taken.
  unfoldable pub begin : Manager Grab → Manager Grab
  begin m =
      let immediate =
        m.prefs.lock_enabled && m.prefs.lock_with_saver_enabled && m.prefs.lock_timeout == 0 in
      let created =
        create_windows P (record m { lock_active = if immediate then true else m.lock_active }) in
      let shown = show_windows P created.windows (record created { active = true }) in
      record shown { emitted = activated ∷ shown.emitted }

  unfoldable pub activate : Manager Grab → Bool × Manager Grab
  unfolding grab_devices lock_session begin
  activate m =
      let (grabbed, m1) = grab_devices m in
      let (locked, m2) = lock_session m1 in
      if m.active
      then (true, m)
      else if not grabbed
      then (false, m1)
      else if not locked
      then (false, m2)
      else (true, begin m2)

  -- gs_manager_deactivate after the guard.
  unfoldable pub finish : Manager Grab → Manager Grab
  finish m =
      let released = record (remove_timers m) { grab = Option.map P.grabs.release m.grab } in
      let cleared = destroy_windows P (remove_all_jobs released) in
      let unlocked = record cleared {
        lock_manager = Option.map SessionLock.unlock cleared.lock_manager;
      } in
      let reset = enable_locker false (record unlocked { active = false; dialog_up = false }) in
      record reset { emitted = deactivated ∷ reset.emitted }

  unfoldable pub deactivate : Manager Grab → Bool × Manager Grab
  unfolding finish
  deactivate m = if m.active then (true, finish m) else (true, m)

  unfoldable pub activate_saver : Bool → Manager Grab → Bool × Manager Grab
  unfolding activate deactivate
  activate_saver true m = activate m
  activate_saver false m = deactivate m
