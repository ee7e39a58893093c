-- ===== src/Monitor/Agreement/Run.antt =====
-- Every event of the daemon keeps the listener on the buses and the manager in agreement
-- (src/gs-monitor.c).
use xfce4_screensaver.Base.{
  ℕ, ◌≡◌, Bool, true, false, not, ◌&&◌, ◌⊎◌, inl, inr, some, List, [], ◌∷◌, All, if_elim,
  option_elim, OnSome-anything, ◌∙◌, sym, arith,
}
use xfce4_screensaver.ListenerWayland
use xfce4_screensaver.ListenerWayland.{ListenerWayland, AlarmId}
use xfce4_screensaver.ListenerDbus.{World}
use xfce4_screensaver.ListenerDbus.Activation.{activate_saver, same}
use xfce4_screensaver.ListenerDbus.Messages.{Message, one_bool, set_active_call, Reply}
use xfce4_screensaver.ListenerDbus.Keeps.{filter_function-Keeps, system_filter_function-Keeps}
use xfce4_screensaver.Manager.{Platform}
use xfce4_screensaver.Manager.Step
use xfce4_screensaver.Manager.Step.{Event, manager_idle, saver_activated, window_deactivated_idle}
use xfce4_screensaver.Monitor.{
  Daemon, on_manager, manager_deactivated, notify, activator, handlers, listener_dbus_quit_cb,
  on_wayland, manager_step, settings_step, step, run, DaemonEvent, manager_event, session_message,
  system_message, alarm_idled, alarm_resumed, x11_timer, x11_notify, settings_changed, time_passes,
}
use xfce4_screensaver.Monitor.Fuel.{
  notify_nothing, with_answer, with_answer_eq, active_changed_settled, idle_prefs,
}
use xfce4_screensaver.Monitor.Steps.{
  KeepsSignals, alarm_step-Keeps, timer_step-Keeps, notify_step-Keeps,
}
use xfce4_screensaver.Monitor.Agreement.{InStep, activate_saver-InStep, set_active_internal-active}
use xfce4_screensaver.Monitor.Agreement.Falls.{FromLoop, step-Falls}
use xfce4_screensaver.Monitor.Agreement.Handlers.{handlers-InStep, emit-InStep}

module _ {Grab : Type 0} (P : Platform Grab) where
  abbrev W : Type 0
  W = World (Daemon Grab)

  same_off : (b : Bool) → same b false ≡ true → b ≡ false
  unfolding same
  same_off b e = ground arith

  -- Whatever the listener had, it is told of a manager that became inactive.
  settle_off :
      (n : ℕ) (w : W)
      → w.rest.manager.active ≡ false
      → InStep (activate_saver (activator P n) false w).1
  unfolding with_answer
  settle_off n w off = rw (with_answer_eq P n false w) (
      rw (active_changed_settled P n false w off) (
        if_elim (λ (r : Bool × W). InStep r.1) (same w.listener.active false)
          (λ e. same_off w.listener.active e ∙ sym off)
          (λ _. set_active_internal-active P w.rest.clock false w.listener ∙ sym off)))

  deactivated-InStep :
      (n : ℕ) (w : W)
      → w.rest.manager.active ≡ false
      → InStep (manager_deactivated P (activator P n) w)
  unfolding manager_deactivated
  deactivated-InStep n w off =
      settle_off n (on_wayland ListenerWayland.manager_deactivated w)
        (idle_prefs P ListenerWayland.manager_deactivated w ∙ off)

  notify_off :
      (n : ℕ) (before : Bool) (w : W)
      → w.listener.active ≡ before
      → w.rest.manager.active ≡ false
      → InStep (notify P (activator P n) before w)
  unfolding notify
  notify_off n before w h off =
      if_elim InStep (not before && w.rest.manager.active) (λ e. absurd (ground arith))
        λ _.
          if_elim InStep (before && not w.rest.manager.active) (λ _. deactivated-InStep n w off)
            (λ e. h ∙ ground arith)

  notify-InStep :
      (n : ℕ) (before : Bool) (w : W)
      → w.listener.active ≡ before
      → (w.rest.manager.active ≡ before) ⊎ (w.rest.manager.active ≡ false)
      → InStep (notify P (activator P n) before w)
  notify-InStep n before w h (inl e) = rw (notify_nothing P (activator P n) before w e) (h ∙ sym e)
  notify-InStep n before w h (inr off) = notify_off n before w h off

  manager_step-InStep :
      (e : Event) (w : W) → FromLoop (manager_event e) → InStep w → InStep (manager_step P e w)
  unfolding manager_step on_manager
  manager_step-InStep e w q h =
      notify-InStep 1 w.rest.manager.active (on_manager (Step.step P e) w) h
        (step-Falls P e w.rest.manager q)

  signals-InStep : KeepsSignals P InStep
  signals-InStep = record { idle = λ i w h. h; emitted = λ s w h. emit-InStep P 1 s w h }

  set_active_call-InStep :
      (m : Message) (w : W) → InStep w → InStep (set_active_call (handlers P) m w).1
  unfolding set_active_call activate_saver handlers
  set_active_call-InStep m w h =
      option_elim (λ (r : Reply × W). InStep r.1) (λ _. Unit) (one_bool m.args)
        (OnSome-anything (one_bool m.args)) h (λ on _. activate_saver-InStep P 1 on w h)

  step-InStep : (e : DaemonEvent) (w : W) → FromLoop e → InStep w → InStep (step P e w)
  unfolding step settings_step listener_dbus_quit_cb handlers activate_saver
  step-InStep (manager_event e) w q h = manager_step-InStep e w q h
  step-InStep (session_message m) w q h =
      filter_function-Keeps (handlers P) InStep (handlers-InStep P) m w
        (λ _. activate_saver-InStep P 1 false w h) (λ _. set_active_call-InStep m w h) h
  step-InStep (system_message properties session_active m) w q h =
      system_filter_function-Keeps (handlers P) InStep (handlers-InStep P) properties session_active
        m w (λ _. activate_saver-InStep P 1 false w h) h
  step-InStep (alarm_idled id fullscreen) w q h =
      alarm_step-Keeps P InStep signals-InStep id fullscreen w h
  step-InStep alarm_resumed w q h = emit-InStep P 1 (some ListenerWayland.resumed) w h
  step-InStep (x11_timer fullscreen info) w q h =
      timer_step-Keeps P InStep signals-InStep fullscreen info w h
  step-InStep (x11_notify fullscreen state) w q h =
      notify_step-Keeps P InStep signals-InStep fullscreen state w h
  step-InStep (settings_changed p) w q h = h
  step-InStep (time_passes seconds) w q h = h

  -- In every run of the daemon that starts with the listener on the buses and the manager in
  -- agreement on whether the screen saver is active, they agree at the end, whatever messages,
  -- idleness notifications, timers, dialogs and window events come, in any order.
  pub run-InStep :
      (es : List DaemonEvent) (w : W) → All FromLoop es → InStep w → InStep (run P es w)
  unfolding run
  run-InStep [] w q h = h
  run-InStep (e ∷ es) w (q, qs) h = run-InStep es (step P e w) qs (step-InStep e w q h)
