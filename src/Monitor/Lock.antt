-- ===== src/Monitor/Lock.antt =====
-- What the daemon does while the screen is locked (src/gs-monitor.c): no message, notification,
-- timer or window event unlocks it, other than those that ask for it.
pub mod Run
use xfce4_screensaver.Base.{
  ℕ, ◌≡◌, true, false, not, ◌&&◌, Option, none, some, if_elim, if◌then◌else◌, option_elim,
  OnSome-anything, ap, sym, String, str_eq,
}
use xfce4_screensaver.Listener.{Signal, activate, lock, poke}
use xfce4_screensaver.ListenerWayland.{ListenerWayland}
use xfce4_screensaver.ListenerDbus.{World}
use xfce4_screensaver.ListenerDbus.Activation.{activate_saver, is_inhibited}
use xfce4_screensaver.ListenerDbus.Keeps.{Keeps}
use xfce4_screensaver.Window
use xfce4_screensaver.Window.{Window}
use xfce4_screensaver.Manager.{Manager, Platform, update_window}
use xfce4_screensaver.Manager.Locker.{enable_locker}
use xfce4_screensaver.Manager.Dialogs.{show_message, find_window_at_pointer}
use xfce4_screensaver.Manager.Tables.{All-update_window}
use xfce4_screensaver.Manager.Locked.{Kept, IsLocked, with_windows, request_unlock-IsLocked}
use xfce4_screensaver.Manager.Locked.Windows.{enable_locker-IsLocked}
use xfce4_screensaver.Manager.Locked.Run.{cycle-IsLocked, set_throttled-IsLocked}
use xfce4_screensaver.Monitor.{
  Daemon, on_manager, on_wayland, listener_dbus_lock_cb, listener_activate_cb, listener_lock_cb,
  emit, activator, handlers, simulate_user_activity, request_password_prompt_cb, show_message_cb,
}
use xfce4_screensaver.Monitor.Fuel.{idle_elim}
use xfce4_screensaver.Monitor.Agreement.{settled_rest}

-- The screen is locked.
abbrev pub LockedDaemon : {Grab : Type 0} → World (Daemon Grab) → Type 0
LockedDaemon w = IsLocked w.rest.manager

module _ {Grab : Type 0} (P : Platform Grab) where
  abbrev W : Type 0
  W = World (Daemon Grab)

  -- An activation changes nothing of a screen saver that is active.
  pub activate-LockedDaemon :
      (n : ℕ) (w : W) → LockedDaemon w → LockedDaemon (activate_saver (activator P n) true w).1
  activate-LockedDaemon n w h = rw (settled_rest P n true w h.is_on) h

  pub lock_cb-LockedDaemon :
      (n : ℕ) (w : W) → LockedDaemon w → LockedDaemon (listener_dbus_lock_cb P (activator P n) w)
  unfolding listener_dbus_lock_cb on_manager
  lock_cb-LockedDaemon n w h =
      if_elim LockedDaemon w.rest.manager.prefs.lock_enabled
        (λ _.
          activate-LockedDaemon n (on_manager (enable_locker true) w)
            (enable_locker-IsLocked P w.rest.manager h))
        (λ _. h)

  pub simulate-LockedDaemon : (w : W) → LockedDaemon w → LockedDaemon (simulate_user_activity P w)
  unfolding simulate_user_activity on_manager
  simulate-LockedDaemon w h = request_unlock-IsLocked P w.rest.manager h

  pub emit-LockedDaemon :
      (n : ℕ) (signal : Option Signal) (w : W)
      → LockedDaemon w
      → LockedDaemon (emit P (activator P n) signal w)
  unfolding emit listener_activate_cb listener_lock_cb
  emit-LockedDaemon n none w h = h
  emit-LockedDaemon n (some activate) w h =
      if_elim LockedDaemon (is_inhibited w.listener) (λ _. h) (λ _. activate-LockedDaemon n w h)
  emit-LockedDaemon n (some lock) w h =
      if_elim LockedDaemon (is_inhibited w.listener) (λ _. h) (λ _. lock_cb-LockedDaemon n w h)
  emit-LockedDaemon n (some poke) w h = simulate-LockedDaemon w h

  prompt-LockedDaemon : (w : W) → LockedDaemon w → LockedDaemon (request_password_prompt_cb P w)
  unfolding request_password_prompt_cb on_manager
  prompt-LockedDaemon w h =
      if_elim LockedDaemon (not w.rest.manager.prefs.lock_enabled) (λ _. h)
        (λ _. request_unlock-IsLocked P w.rest.manager h)

  show_message-Kept : (x : Window) → Kept x → Kept (Window.show_message x)
  unfolding Window.show_message
  show_message-Kept x k = k

  show_message-IsLocked :
      (a b c : String) (m : Manager Grab) → IsLocked m → IsLocked (show_message P a b c m)
  unfolding show_message
  show_message-IsLocked a b c m h =
      option_elim IsLocked (λ _. Unit) (find_window_at_pointer P m)
        (OnSome-anything (find_window_at_pointer P m)) h
        λ x _.
          let shown = record m { windows = update_window x.id Window.show_message m.windows } in
          let empty = str_eq a "" && str_eq b "" && str_eq c "" in
          request_unlock-IsLocked P (if empty then m else shown) (
            if_elim IsLocked empty (λ _. h)
              (λ _. with_windows h (
                All-update_window Kept x.id Window.show_message m.windows show_message-Kept
                  h.kept)))

  show-LockedDaemon :
      (a b c : String) (w : W) → LockedDaemon w → LockedDaemon (show_message_cb P a b c w)
  unfolding show_message_cb on_manager
  show-LockedDaemon a b c w h =
      if_elim LockedDaemon (not w.rest.manager.prefs.lock_enabled) (λ _. h)
        (λ _. show_message-IsLocked a b c w.rest.manager h)

  pub handlers-LockedDaemon : Keeps (handlers P) LockedDaemon
  unfolding handlers on_manager
  handlers-LockedDaemon = record {
    listener = λ w l e h. h;
    lock = λ w h. lock_cb-LockedDaemon 1 w h;
    cycle = λ w h. cycle-IsLocked P w.rest.manager h;
    simulate = λ w h. simulate-LockedDaemon w h;
    prompt = λ w h. prompt-LockedDaemon w h;
    show = λ a b c w h. show-LockedDaemon a b c w h;
    throttle = λ on w h. set_throttled-IsLocked P on w.rest.manager h;
    activate = λ w h. activate-LockedDaemon 1 w h;
  }
