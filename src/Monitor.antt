-- ===== src/Monitor.antt =====
-- src/gs-monitor.c: the daemon. It owns the manager, the listener on the message buses and the
-- listener to idleness of the platform, and connects their signals.
pub mod Agreement
pub mod Fuel
pub mod Lock
pub mod Tables
pub mod Steps
pub mod Inhibited
pub mod Unlockable
use xfce4_screensaver.Base.{
  ℕ, zero, suc, Bool, true, false, ◌&&◌, not, Option, none, some, List, [], ◌∷◌, String,
  if◌then◌else◌,
}
use xfce4_screensaver.Prefs.{Prefs}
use xfce4_screensaver.Listener
use xfce4_screensaver.Listener.{Listener, Signal, activate, lock, poke}
use xfce4_screensaver.ListenerX11
use xfce4_screensaver.ListenerX11.{ListenerX11, IdleInfo, SaverState}
use xfce4_screensaver.ListenerWayland
use xfce4_screensaver.ListenerWayland.{ListenerWayland, AlarmId}
use xfce4_screensaver.ListenerDbus.{World, Handlers, Activator, ListenerDbus}
use xfce4_screensaver.ListenerDbus.Activation.{activate_saver, is_inhibited}
use xfce4_screensaver.ListenerDbus.Messages.{Message, Result}
use xfce4_screensaver.ListenerDbus.Logind.{Properties}
use xfce4_screensaver.ListenerDbus.Bus.{filter_function, system_filter_function}
use xfce4_screensaver.Manager.{Manager, Platform}
use xfce4_screensaver.Manager.Locker.{enable_locker, set_throttled, cycle}
use xfce4_screensaver.Manager.Dialogs.{request_unlock, show_message}
use xfce4_screensaver.Manager.Saver
use xfce4_screensaver.Manager.Step
use xfce4_screensaver.Manager.Step.{Event}

-- The platform's listener to idleness.
pub data Idle : Type 0 where
  x11 : ListenerX11 → Idle
  wayland : ListenerWayland → Idle

-- GSMonitorPrivate without the listener on the buses, with the time in seconds and whether the
-- program was told to quit. The settings are those of the manager: they are one object.
pub record Daemon (Grab : Type 0) : Type 0 where
  pub manager : Manager Grab
  pub base : Listener
  pub idle : Idle
  pub clock : ℕ
  pub quitting : Bool

unfoldable pub on_manager :
    {Grab : Type 0} → (Manager Grab → Manager Grab) → World (Daemon Grab) → World (Daemon Grab)
on_manager f w = record w { rest = record w.rest { manager = f w.rest.manager } }

unfoldable pub on_wayland :
    {Grab : Type 0}
    → (ListenerWayland → ListenerWayland)
    → World (Daemon Grab)
    → World (Daemon Grab)
on_wayland f w = elim w.rest.idle [
  | x11 l ↦ w
  | wayland l ↦ record w { rest = record w.rest { idle = wayland (f l) } }
]

module _ {Grab : Type 0} (P : Platform Grab) where
  abbrev pub State : Type 0
  State = World (Daemon Grab)

  -- gs_monitor_simulate_user_activity; suspending the X server's screen saver is not modelled.
  unfoldable pub simulate_user_activity : State → State
  unfolding on_manager
  simulate_user_activity w = on_manager (λ m. (request_unlock P m).1) w

  module _ (A : Activator (Daemon Grab)) where
    unfoldable pub listener_dbus_lock_cb : State → State
    unfolding on_manager
    listener_dbus_lock_cb w =
        if w.rest.manager.prefs.lock_enabled
        then (activate_saver A true (on_manager (enable_locker true) w)).1
        else w

    unfoldable pub listener_activate_cb : State → State
    listener_activate_cb w = if is_inhibited w.listener then w else (activate_saver A true w).1

    unfoldable pub listener_lock_cb : State → State
    unfolding listener_dbus_lock_cb
    listener_lock_cb w = if is_inhibited w.listener then w else listener_dbus_lock_cb w

    -- A signal of the platform's listener.
    unfoldable pub emit : Option Signal → State → State
    unfolding listener_activate_cb listener_lock_cb simulate_user_activity
    emit none w = w
    emit (some activate) w = listener_activate_cb w
    emit (some lock) w = listener_lock_cb w
    emit (some poke) w = simulate_user_activity w

    -- "activated" of the manager, which the Wayland listener handles.
    unfoldable pub manager_activated : State → State
    unfolding emit on_wayland
    manager_activated w = elim w.rest.idle [
      | x11 l ↦ w
      | wayland l ↦
          let (signal, l') = ListenerWayland.activated_start w.rest.manager.prefs l in
          on_wayland ListenerWayland.activated_rest
            (emit signal (record w { rest = record w.rest { idle = wayland l' } }))
    ]

    -- "deactivated" of the manager, which the Wayland listener handles first, and then the monitor.
    unfoldable pub manager_deactivated : State → State
    unfolding on_wayland
    manager_deactivated w =
        (activate_saver A false (on_wayland ListenerWayland.manager_deactivated w)).1

    -- The manager's signals after an operation on it: "activated" is emitted last by an operation
    -- that makes the saver active, and "deactivated" by one that makes it inactive.
    unfoldable pub notify : Bool → State → State
    unfolding manager_activated manager_deactivated
    notify before w =
        if not before && w.rest.manager.active
        then manager_activated w
        else if before && not w.rest.manager.active
        then manager_deactivated w
        else w

    -- listener_dbus_active_changed_cb.
    unfoldable pub active_changed : Bool → State → Bool × State
    unfolding notify
    active_changed on w =
        let (res, m) = Saver.activate_saver P on w.rest.manager in
        (res, notify w.rest.manager.active (record w { rest = record w.rest { manager = m } }))

  -- An activation within the handlers of another finds the manager as it asks for it, and emits
  -- nothing, so that a depth of one is enough.
  unfoldable pub activator : ℕ → Activator (Daemon Grab)
  unfolding active_changed
  activator zero = record {
    active_changed = λ on w.
        let (res, m) = Saver.activate_saver P on w.rest.manager in
        (res, record w { rest = record w.rest { manager = m } });
    time = λ d. d.clock;
  }
  activator (suc n) = record { active_changed = active_changed (activator n); time = λ d. d.clock }

  unfoldable pub listener_dbus_quit_cb : Activator (Daemon Grab) → State → State
  listener_dbus_quit_cb A w =
      let off = (activate_saver A false w).1 in
      record off { rest = record off.rest { quitting = true } }

  unfoldable pub request_password_prompt_cb : State → State
  unfolding on_manager
  request_password_prompt_cb w =
      if not w.rest.manager.prefs.lock_enabled
      then w
      else on_manager (λ m. (request_unlock P m).1) w

  unfoldable pub show_message_cb : String → String → String → State → State
  unfolding on_manager
  show_message_cb summary body icon w =
      if not w.rest.manager.prefs.lock_enabled
      then w
      else on_manager (show_message P summary body icon) w

  -- connect_listener_signals.
  unfoldable pub handlers : Handlers (Daemon Grab)
  unfolding activator listener_dbus_lock_cb listener_dbus_quit_cb request_password_prompt_cb
      show_message_cb simulate_user_activity on_manager
  handlers = record {
    lock = listener_dbus_lock_cb (activator 1);
    quit = listener_dbus_quit_cb (activator 1);
    cycle = on_manager (λ m. (cycle P m).1);
    simulate_user_activity = simulate_user_activity;
    request_password_prompt = request_password_prompt_cb;
    activator = activator 1;
    throttle_changed = λ on. on_manager (set_throttled P on);
    show_message = λ summary body icon. show_message_cb summary body icon;
    prefs = λ d. d.manager.prefs;
  }

-- What the main loop brings to the daemon. A message comes with what the buses answer to it, and an
-- event of the idleness with whether the active window is full-screen.
pub data DaemonEvent : Type 0 where
  manager_event : Event → DaemonEvent
  session_message : Message → DaemonEvent
  system_message : Option Properties → Bool → Message → DaemonEvent
  alarm_idled : AlarmId → Bool → DaemonEvent
  alarm_resumed : DaemonEvent
  x11_timer : Bool → Option IdleInfo → DaemonEvent
  x11_notify : Bool → SaverState → DaemonEvent
  settings_changed : Prefs → DaemonEvent
  time_passes : ℕ → DaemonEvent

-- The method of the platform's listener.
unfoldable pub idle_set_timeouts : Prefs → Bool → ℕ → ℕ → Idle → Idle
idle_set_timeouts p enabled timeout lock_timeout (x11 l) =
    x11 (ListenerX11.set_timeouts enabled timeout lock_timeout l)
idle_set_timeouts p enabled timeout lock_timeout (wayland l) =
    wayland (ListenerWayland.set_timeouts p enabled timeout lock_timeout l)

module _ {Grab : Type 0} (P : Platform Grab) where
  set_idle : Idle → World (Daemon Grab) → World (Daemon Grab)
  set_idle idle w = record w { rest = record w.rest { idle = idle } }

  unfoldable pub manager_step : Event → World (Daemon Grab) → World (Daemon Grab)
  manager_step e w = notify P (activator P 1) w.rest.manager.active (on_manager (Step.step P e) w)

  unfoldable pub alarm_step : AlarmId → Bool → World (Daemon Grab) → World (Daemon Grab)
  unfolding set_idle on_wayland
  alarm_step id fullscreen w = elim w.rest.idle [
    | x11 l ↦ w
    | wayland l ↦
        let (signal, l') = ListenerWayland.idled_start w.rest.manager.prefs fullscreen id l in
        if not (ListenerWayland.alarm_is_active id l)
        then w
        else on_wayland (ListenerWayland.idled_rest id)
            (emit P (activator P 1) signal (set_idle (wayland l') w))
  ]

  unfoldable pub timer_step : Bool → Option IdleInfo → World (Daemon Grab) → World (Daemon Grab)
  unfolding set_idle
  timer_step fullscreen info w = elim w.rest.idle [
    | wayland l ↦ w
    | x11 l ↦
        let t = ListenerX11.lock_timer w.rest.manager.prefs fullscreen info l in
        elim l.timer [
          | none ↦ w
          | some _ ↦ emit P (activator P 1) t.signal (set_idle (x11 t.listener) w)
        ]
  ]

  unfoldable pub notify_step : Bool → SaverState → World (Daemon Grab) → World (Daemon Grab)
  unfolding set_idle
  notify_step fullscreen state w = elim w.rest.idle [
    | wayland l ↦ w
    | x11 l ↦
        let (signal, l') = ListenerX11.xroot_filter w.rest.manager.prefs fullscreen state l in
        emit P (activator P 1) signal (set_idle (x11 l') w)
  ]

  unfoldable pub settings_step : Prefs → World (Daemon Grab) → World (Daemon Grab)
  unfolding idle_set_timeouts
  settings_step p w =
      let (base, idle) = Listener.set_timeouts (idle_set_timeouts p) p (w.rest.base, w.rest.idle) in
      record w {
        rest = record w.rest {
          manager = record w.rest.manager { prefs = p };
          base = base;
          idle = idle;
        };
      }

  unfoldable pub step : DaemonEvent → World (Daemon Grab) → World (Daemon Grab)
  unfolding manager_step alarm_step timer_step notify_step settings_step
  step (manager_event e) w = manager_step e w
  step (session_message m) w = (filter_function (handlers P) m w).1
  step (system_message properties session_active m) w =
      (system_filter_function (handlers P) properties session_active m w).1
  step (alarm_idled id fullscreen) w = alarm_step id fullscreen w
  step alarm_resumed w = emit P (activator P 1) (some ListenerWayland.resumed) w
  step (x11_timer fullscreen info) w = timer_step fullscreen info w
  step (x11_notify fullscreen state) w = notify_step fullscreen state w
  step (settings_changed p) w = settings_step p w
  step (time_passes seconds) w = record w { rest = record w.rest { clock = seconds } }

  unfoldable pub run : List DaemonEvent → World (Daemon Grab) → World (Daemon Grab)
  unfolding step
  run [] w = w
  run (e ∷ es) w = run es (step e w)
