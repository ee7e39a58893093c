-- ===== src/Monitor/Agreement/Handlers.antt =====
-- The handlers that the monitor connects keep the listener on the buses and the manager in agreement
-- (src/gs-monitor.c).
use xfce4_screensaver.Base.{
  ◌≡◌, ℕ, true, not, ◌&&◌, Option, none, some, if_elim, if◌then◌else◌, option_elim, OnSome-anything,
  refl, ◌∙◌, sym, String, str_eq,
}
use xfce4_screensaver.Listener.{Signal, activate, lock, poke}
use xfce4_screensaver.ListenerDbus.{World}
use xfce4_screensaver.ListenerDbus.Activation.{is_inhibited}
use xfce4_screensaver.ListenerDbus.Keeps.{Keeps}
use xfce4_screensaver.Window
use xfce4_screensaver.Manager.{Manager, Platform, update_window}
use xfce4_screensaver.Manager.Locker.{enable_locker}
use xfce4_screensaver.Manager.Dialogs.{show_message, find_window_at_pointer}
use xfce4_screensaver.Manager.Active.{request_unlock-As}
use xfce4_screensaver.Manager.Active.Events.{cycle-As, set_throttled-As}
use xfce4_screensaver.Monitor.{
  Daemon, on_manager, listener_dbus_lock_cb, listener_activate_cb, listener_lock_cb, emit,
  activator, handlers, simulate_user_activity, request_password_prompt_cb, show_message_cb,
}
use xfce4_screensaver.Monitor.Agreement.{InStep, activate_saver-InStep}

module _ {Grab : Type 0} (P : Platform Grab) where
  abbrev W : Type 0
  W = World (Daemon Grab)

  pub lock_cb-InStep :
      (n : ℕ) (w : W) → InStep w → InStep (listener_dbus_lock_cb P (activator P n) w)
  unfolding listener_dbus_lock_cb on_manager enable_locker
  lock_cb-InStep n w h =
      if_elim InStep w.rest.manager.prefs.lock_enabled
        (λ _. activate_saver-InStep P n true (on_manager (enable_locker true) w) h) (λ _. h)

  pub simulate-InStep : (w : W) → InStep w → InStep (simulate_user_activity P w)
  unfolding simulate_user_activity on_manager
  simulate-InStep w h = h ∙ sym (request_unlock-As P w.rest.manager)

  pub emit-InStep :
      (n : ℕ) (signal : Option Signal) (w : W) → InStep w → InStep (emit P (activator P n) signal w)
  unfolding emit listener_activate_cb listener_lock_cb
  emit-InStep n none w h = h
  emit-InStep n (some activate) w h =
      if_elim InStep (is_inhibited w.listener) (λ _. h) (λ _. activate_saver-InStep P n true w h)
  emit-InStep n (some lock) w h =
      if_elim InStep (is_inhibited w.listener) (λ _. h) (λ _. lock_cb-InStep n w h)
  emit-InStep n (some poke) w h = simulate-InStep w h

  prompt-InStep : (w : W) → InStep w → InStep (request_password_prompt_cb P w)
  unfolding request_password_prompt_cb on_manager
  prompt-InStep w h =
      if_elim InStep (not w.rest.manager.prefs.lock_enabled) (λ _. h)
        (λ _. h ∙ sym (request_unlock-As P w.rest.manager))

  show_message-As : (a b c : String) (m : Manager Grab) → (show_message P a b c m).active ≡ m.active
  unfolding show_message
  show_message-As a b c m =
      option_elim (λ (r : Manager Grab). r.active ≡ m.active) (λ _. Unit)
        (find_window_at_pointer P m) (OnSome-anything (find_window_at_pointer P m)) refl
        λ x _.
          let shown = record m { windows = update_window x.id Window.show_message m.windows } in
          let empty = str_eq a "" && str_eq b "" && str_eq c "" in
          request_unlock-As P (if empty then m else shown)
          ∙ if_elim (λ (r : Manager Grab). r.active ≡ m.active) empty (λ _. refl) (λ _. refl)

  show-InStep : (a b c : String) (w : W) → InStep w → InStep (show_message_cb P a b c w)
  unfolding show_message_cb on_manager
  show-InStep a b c w h =
      if_elim InStep (not w.rest.manager.prefs.lock_enabled) (λ _. h)
        (λ _. h ∙ sym (show_message-As a b c w.rest.manager))

  pub handlers-InStep : Keeps (handlers P) InStep
  unfolding handlers on_manager
  handlers-InStep = record {
    listener = λ w l e h. e ∙ h;
    lock = λ w h. lock_cb-InStep 1 w h;
    cycle = λ w h. h ∙ sym (cycle-As P w.rest.manager);
    simulate = λ w h. simulate-InStep w h;
    prompt = λ w h. prompt-InStep w h;
    show = λ a b c w h. show-InStep a b c w h;
    throttle = λ on w h. h ∙ sym (set_throttled-As P on w.rest.manager);
    activate = λ w h. activate_saver-InStep P 1 true w h;
  }
