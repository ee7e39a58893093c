-- ===== src/Monitor/Tables.antt =====
-- The handlers that the monitor connects leave the tables of inhibitors and throttlers alone
-- (src/gs-monitor.c), so that they are well-formed in every run of the daemon.
use xfce4_screensaver.Base.{
  ℕ, zero, suc, Bool, true, false, not, ◌&&◌, Option, none, some, List, [], ◌∷◌, String, if_elim,
  refl,
}
use xfce4_screensaver.Listener.{Signal, activate, lock, poke}
use xfce4_screensaver.ListenerWayland
use xfce4_screensaver.ListenerWayland.{ListenerWayland, AlarmId}
use xfce4_screensaver.ListenerDbus.{World, Activator}
use xfce4_screensaver.ListenerDbus.Activation.{activate_saver, is_inhibited}
use xfce4_screensaver.ListenerDbus.Tables.{IsWellFormed}
use xfce4_screensaver.ListenerDbus.Tables.Laws.{
  KeepsTables, SameTables, same_then, IsWellFormed-same, activate_saver-same,
}
use xfce4_screensaver.ListenerDbus.Tables.Messages.{
  filter_function-IsWellFormed, system_filter_function-IsWellFormed,
}
use xfce4_screensaver.Manager.{Platform}
use xfce4_screensaver.Manager.Locker.{enable_locker}
use xfce4_screensaver.Manager.Saver
use xfce4_screensaver.Manager.Step
use xfce4_screensaver.Monitor
use xfce4_screensaver.Monitor.{
  Daemon, on_manager, on_wayland, listener_dbus_lock_cb, listener_activate_cb, listener_lock_cb,
  emit, manager_activated, manager_deactivated, notify, active_changed, activator, handlers,
  simulate_user_activity, request_password_prompt_cb, show_message_cb, listener_dbus_quit_cb,
  manager_step, alarm_step, timer_step, notify_step, settings_step, step, run, DaemonEvent,
  manager_event, session_message, system_message, alarm_idled, alarm_resumed, x11_timer, x11_notify,
  settings_changed, time_passes,
}
use xfce4_screensaver.Monitor.Steps.{
  KeepsSignals, alarm_step-Keeps, timer_step-Keeps, notify_step-Keeps,
}
use xfce4_screensaver.Monitor.Fuel.{idle_elim}

module _ {Grab : Type 0} (P : Platform Grab) where
  abbrev W : Type 0
  W = World (Daemon Grab)

  abbrev Same : W → W → Type 0
  Same w r = SameTables w.listener r.listener

  on_wayland-Same : (f : ListenerWayland → ListenerWayland) (w : W) → Same w (on_wayland f w)
  unfolding on_wayland
  on_wayland-Same f w =
      idle_elim (Same w) w.rest.idle (λ _. (refl, refl, refl)) (λ _. (refl, refl, refl))

  module _ (A : Activator (Daemon Grab))
      (a : (on : Bool) (w : W) → Same w (A.active_changed on w).1) where
    activate-Same : (on : Bool) (w : W) → Same w (activate_saver A on w).1
    activate-Same on w = activate_saver-same A on w (a on w)

    lock_cb-Same : (w : W) → Same w (listener_dbus_lock_cb P A w)
    unfolding listener_dbus_lock_cb on_manager
    lock_cb-Same w =
        if_elim (Same w) w.rest.manager.prefs.lock_enabled
          (λ _. activate-Same true (on_manager (enable_locker true) w)) (λ _. (refl, refl, refl))

    emit-Same : (signal : Option Signal) (w : W) → Same w (emit P A signal w)
    unfolding emit listener_activate_cb listener_lock_cb simulate_user_activity on_manager
    emit-Same none w = (refl, refl, refl)
    emit-Same (some activate) w =
        if_elim (Same w) (is_inhibited w.listener) (λ _. (refl, refl, refl))
          (λ _. activate-Same true w)
    emit-Same (some lock) w =
        if_elim (Same w) (is_inhibited w.listener) (λ _. (refl, refl, refl)) (λ _. lock_cb-Same w)
    emit-Same (some poke) w = (refl, refl, refl)

    activated-Same : (w : W) → Same w (manager_activated P A w)
    unfolding manager_activated
    activated-Same w =
        idle_elim (Same w) w.rest.idle (λ _. (refl, refl, refl))
          λ l.
            let (signal, l') = ListenerWayland.activated_start w.rest.manager.prefs l in
            let begun = record w { rest = record w.rest { idle = Monitor.wayland l' } } in
            let emitted = emit P A signal begun in
            same_then w.listener emitted.listener
              (on_wayland ListenerWayland.activated_rest emitted).listener (emit-Same signal begun)
              (on_wayland-Same ListenerWayland.activated_rest emitted)

    deactivated-Same : (w : W) → Same w (manager_deactivated P A w)
    unfolding manager_deactivated
    deactivated-Same w =
        let w' = on_wayland ListenerWayland.manager_deactivated w in
        same_then w.listener w'.listener (activate_saver A false w').1.listener
          (on_wayland-Same ListenerWayland.manager_deactivated w) (activate-Same false w')

    notify-Same : (before : Bool) (w : W) → Same w (notify P A before w)
    unfolding notify
    notify-Same before w =
        if_elim (Same w) (not before && w.rest.manager.active) (λ _. activated-Same w)
          λ _.
            if_elim (Same w) (before && not w.rest.manager.active) (λ _. deactivated-Same w)
              (λ _. (refl, refl, refl))

  activator-Same : (n : ℕ) (on : Bool) (w : W) → Same w ((activator P n).active_changed on w).1
  unfolding activator active_changed
  activator-Same zero on w = (refl, refl, refl)
  activator-Same (suc n) on w =
      let m = (Saver.activate_saver P on w.rest.manager).1 in
      notify-Same (activator P n) (activator-Same n) w.rest.manager.active
        (record w { rest = record w.rest { manager = m } })

  prompt-Same : (w : W) → Same w (request_password_prompt_cb P w)
  unfolding request_password_prompt_cb on_manager
  prompt-Same w =
      if_elim (Same w) (not w.rest.manager.prefs.lock_enabled) (λ _. (refl, refl, refl))
        (λ _. (refl, refl, refl))

  show-Same : (a b c : String) (w : W) → Same w (show_message_cb P a b c w)
  unfolding show_message_cb on_manager
  show-Same a b c w =
      if_elim (Same w) (not w.rest.manager.prefs.lock_enabled) (λ _. (refl, refl, refl))
        (λ _. (refl, refl, refl))

  pub handlers-KeepsTables : KeepsTables (handlers P)
  unfolding handlers on_manager listener_dbus_quit_cb simulate_user_activity
  handlers-KeepsTables = record {
    lock = λ w. lock_cb-Same (activator P 1) (activator-Same 1) w;
    quit = λ w. activate-Same (activator P 1) (activator-Same 1) false w;
    cycle = λ w. (refl, refl, refl);
    simulate = λ w. (refl, refl, refl);
    prompt = λ w. prompt-Same w;
    show = λ a b c w. show-Same a b c w;
    throttle = λ on w. (refl, refl, refl);
    active_changed = λ on w. activator-Same 1 on w;
  }

  abbrev K : W → Type 0
  K w = IsWellFormed w.listener

  emitted-K : (signal : Option Signal) (w : W) → K w → K (emit P (activator P 1) signal w)
  emitted-K signal w h =
      IsWellFormed-same w.listener (emit P (activator P 1) signal w).listener
        (emit-Same (activator P 1) (activator-Same 1) signal w) h

  signals-K : KeepsSignals P K
  signals-K = record { idle = λ i w h. h; emitted = emitted-K }

  step-K : (e : DaemonEvent) (w : W) → K w → K (step P e w)
  unfolding step settings_step manager_step on_manager
  step-K (manager_event e) w h =
      let w' = on_manager (Step.step P e) w in
      IsWellFormed-same w.listener (manager_step P e w).listener
        (notify-Same (activator P 1) (activator-Same 1) w.rest.manager.active w') h
  step-K (session_message m) w h =
      filter_function-IsWellFormed (handlers P) handlers-KeepsTables m w h
  step-K (system_message properties session_active m) w h =
      system_filter_function-IsWellFormed (handlers P) handlers-KeepsTables properties
        session_active m w h
  step-K (alarm_idled id fullscreen) w h = alarm_step-Keeps P K signals-K id fullscreen w h
  step-K alarm_resumed w h = emitted-K (some ListenerWayland.resumed) w h
  step-K (x11_timer fullscreen info) w h = timer_step-Keeps P K signals-K fullscreen info w h
  step-K (x11_notify fullscreen state) w h = notify_step-Keeps P K signals-K fullscreen state w h
  step-K (settings_changed p) w h = h
  step-K (time_passes seconds) w h = h

  -- In every run of the daemon that starts with well-formed tables of inhibitors and throttlers, they
  -- are well-formed at the end: the cookies of each table differ from each other, each entry is in
  -- the table of its kind, and the throttle flag is set exactly while there is a throttler.
  pub run-IsWellFormed :
      (es : List DaemonEvent) (w : W) → IsWellFormed w.listener → IsWellFormed (run P es w).listener
  unfolding run
  run-IsWellFormed [] w h = h
  run-IsWellFormed (e ∷ es) w h = run-IsWellFormed es (step P e w) (step-K e w h)
