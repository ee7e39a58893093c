-- ===== src/Monitor/Inhibited.antt =====
-- Idleness while a client inhibits the screen saver (src/gs-monitor.c, src/gs-listener-dbus.c).
use xfce4_screensaver.Base.{◌≡◌, true, Option, none, some, List, [], ◌∷◌, All, refl, ◌∙◌, ap}
use xfce4_screensaver.Listener.{Signal, activate, lock, poke}
use xfce4_screensaver.ListenerWayland
use xfce4_screensaver.ListenerDbus.{World}
use xfce4_screensaver.ListenerDbus.Activation.{is_inhibited}
use xfce4_screensaver.Manager.{Platform}
use xfce4_screensaver.Manager.Active.{request_unlock-As}
use xfce4_screensaver.Monitor.{
  Daemon, on_manager, emit, activator, listener_activate_cb, listener_lock_cb,
  simulate_user_activity, settings_step, step, run, DaemonEvent, manager_event, session_message,
  system_message, alarm_idled, alarm_resumed, x11_timer, x11_notify, settings_changed, time_passes,
}
use xfce4_screensaver.Monitor.Steps.{
  KeepsSignals, alarm_step-Keeps, timer_step-Keeps, notify_step-Keeps,
}

-- An event of the idleness of the user, of the settings or of the clock.
abbrev pub IsIdleness : DaemonEvent → Type 0
IsIdleness (manager_event _) = ⊥
IsIdleness (session_message _) = ⊥
IsIdleness (system_message _ _ _) = ⊥
IsIdleness _ = Unit

module _ {Grab : Type 0} (P : Platform Grab) where
  abbrev W : Type 0
  W = World (Daemon Grab)

  -- The listener on the buses, and whether the saver is active, are as in `w0`.
  abbrev pub Unchanged : W → W → Type 0
  Unchanged w0 w = (w.listener ≡ w0.listener) × (w.rest.manager.active ≡ w0.rest.manager.active)

  module _ (w0 : W) (inhibited : is_inhibited w0.listener ≡ true) where
    emit-Unchanged :
        (signal : Option Signal) (w : W)
        → Unchanged w0 w
        → Unchanged w0 (emit P (activator P 1) signal w)
    unfolding emit listener_activate_cb listener_lock_cb simulate_user_activity on_manager
    emit-Unchanged none w h = h
    emit-Unchanged (some activate) w h = rw (ap is_inhibited h.0 ∙ inhibited) h
    emit-Unchanged (some lock) w h = rw (ap is_inhibited h.0 ∙ inhibited) h
    emit-Unchanged (some poke) w h = (h.0, request_unlock-As P w.rest.manager ∙ h.1)

    signals-Unchanged : KeepsSignals P (Unchanged w0)
    signals-Unchanged = record { idle = λ i w h. h; emitted = emit-Unchanged }

    step-Unchanged :
        (e : DaemonEvent) (w : W) → IsIdleness e → Unchanged w0 w → Unchanged w0 (step P e w)
    unfolding step settings_step
    step-Unchanged (manager_event _) w q h = elim q [ ]
    step-Unchanged (session_message _) w q h = elim q [ ]
    step-Unchanged (system_message _ _ _) w q h = elim q [ ]
    step-Unchanged (alarm_idled id fullscreen) w q h =
        alarm_step-Keeps P (Unchanged w0) signals-Unchanged id fullscreen w h
    step-Unchanged alarm_resumed w q h = emit-Unchanged (some ListenerWayland.resumed) w h
    step-Unchanged (x11_timer fullscreen info) w q h =
        timer_step-Keeps P (Unchanged w0) signals-Unchanged fullscreen info w h
    step-Unchanged (x11_notify fullscreen state) w q h =
        notify_step-Keeps P (Unchanged w0) signals-Unchanged fullscreen state w h
    step-Unchanged (settings_changed p) w q h = h
    step-Unchanged (time_passes seconds) w q h = h

    runs :
        (es : List DaemonEvent) (w : W)
        → All IsIdleness es
        → Unchanged w0 w
        → Unchanged w0 (run P es w)
    unfolding run
    runs [] w q h = h
    runs (e ∷ es) w q h = runs es (step P e w) q.1 (step-Unchanged e w q.0 h)

  -- While there is an inhibitor, the events of idleness on X11 and on Wayland, changes of the settings
  -- and the clock, in any order and any number of times, leave the listener on the buses as it is and
  -- make the screen saver neither active nor inactive.
  pub run-inhibited :
      (es : List DaemonEvent) (w : W)
      → All IsIdleness es
      → is_inhibited w.listener ≡ true
      → Unchanged w (run P es w)
  run-inhibited es w q inhibited = runs w inhibited es w q (refl, refl)
