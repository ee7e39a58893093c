-- ===== src/Monitor/Lock/Run.antt =====
-- Every run of the daemon keeps the screen locked, but for what asks for it to be unlocked
-- (src/gs-monitor.c, src/gs-listener-dbus.c, src/gs-manager.c).
use xfce4_screensaver.Base.{
  ◌≡◌, Bool, true, false, not, ◌&&◌, Option, none, some, List, [], ◌∷◌, All, option_elim, OnSome,
  ◌∙◌, sym, arith,
}
use xfce4_screensaver.ListenerWayland
use xfce4_screensaver.ListenerWayland.{AlarmId}
use xfce4_screensaver.ListenerDbus.{World}
use xfce4_screensaver.ListenerDbus.Activation.{activate_saver}
use xfce4_screensaver.ListenerDbus.Logind.{is_signal}
use xfce4_screensaver.ListenerDbus.Messages.{
  Message, one_bool, set_active_call, Reply, is_method_call, service,
}
use xfce4_screensaver.ListenerDbus.Keeps.{filter_function-Keeps, system_filter_function-Keeps}
use xfce4_screensaver.Manager.{Platform}
use xfce4_screensaver.Manager.Step
use xfce4_screensaver.Manager.Step.{Event}
use xfce4_screensaver.Manager.Locked.Run.{IsHarmless, step-IsLocked}
use xfce4_screensaver.Monitor.{
  Daemon, on_manager, activator, handlers, manager_step, settings_step, step, run, DaemonEvent,
  manager_event, session_message, system_message, alarm_idled, alarm_resumed, x11_timer, x11_notify,
  settings_changed, time_passes,
}
use xfce4_screensaver.Monitor.Fuel.{notify_nothing}
use xfce4_screensaver.Monitor.Steps.{
  KeepsSignals, alarm_step-Keeps, timer_step-Keeps, notify_step-Keeps,
}
use xfce4_screensaver.Monitor.Lock.{
  LockedDaemon, activate-LockedDaemon, emit-LockedDaemon, handlers-LockedDaemon,
}

-- Whether SetActive asks for a deactivation.
unfoldable pub asks_off : Message → Bool
asks_off m = elim (one_bool m.args) [ none ↦ false | some on ↦ not on ]

OnSome-kept :
    (o : Option Bool)
    → (elim o [ none ↦ false | some on ↦ not on ]) ≡ false
    → OnSome (λ on. not on ≡ false) o
OnSome-kept none e = tt
OnSome-kept (some on) e = e

-- A session message other than Quit and SetActive(FALSE), a system message other than Unlock of
-- logind, and an event of the manager other than an accepted dialog.
abbrev pub KeepsLock : {Grab : Type 0} → Platform Grab → DaemonEvent → Type 0
KeepsLock P (manager_event e) = IsHarmless P e
KeepsLock P (session_message m) =
    (is_method_call service "Quit" m ≡ false)
    × ((is_method_call service "SetActive" m && asks_off m) ≡ false)
KeepsLock P (system_message _ _ m) = is_signal "org.freedesktop.login1.Session" "Unlock" m ≡ false
KeepsLock P _ = Unit

module _ {Grab : Type 0} (P : Platform Grab) where
  abbrev W : Type 0
  W = World (Daemon Grab)

  manager_step-LockedDaemon :
      (e : Event) (w : W) → IsHarmless P e → LockedDaemon w → LockedDaemon (manager_step P e w)
  unfolding manager_step on_manager
  manager_step-LockedDaemon e w q h =
      let w' = on_manager (Step.step P e) w in
      let h' : LockedDaemon w' = step-IsLocked P e w.rest.manager q h in
      rw (notify_nothing P (activator P 1) w.rest.manager.active w' (h'.is_on ∙ sym h.is_on)) h'

  signals-LockedDaemon : KeepsSignals P LockedDaemon
  signals-LockedDaemon = record {
    idle = λ i w h. h;
    emitted = λ s w h. emit-LockedDaemon P 1 s w h;
  }

  set_active-LockedDaemon :
      (on : Bool) (w : W)
      → not on ≡ false
      → LockedDaemon w
      → LockedDaemon (activate_saver (activator P 1) on w).1
  set_active-LockedDaemon true w q h = activate-LockedDaemon P 1 w h
  set_active-LockedDaemon false w q h = absurd (cc)

  set_active_call-LockedDaemon :
      (m : Message) (w : W)
      → asks_off m ≡ false
      → LockedDaemon w
      → LockedDaemon (set_active_call (handlers P) m w).1
  unfolding set_active_call activate_saver handlers asks_off
  set_active_call-LockedDaemon m w q h =
      option_elim (λ (r : Reply × W). LockedDaemon r.1) (λ on. not on ≡ false) (one_bool m.args)
        (OnSome-kept (one_bool m.args) q) h (λ on no. set_active-LockedDaemon on w no h)

  step-LockedDaemon :
      (e : DaemonEvent) (w : W) → KeepsLock P e → LockedDaemon w → LockedDaemon (step P e w)
  unfolding step settings_step handlers activate_saver
  step-LockedDaemon (manager_event e) w q h = manager_step-LockedDaemon e w q h
  step-LockedDaemon (session_message m) w q h =
      filter_function-Keeps (handlers P) LockedDaemon (handlers-LockedDaemon P) m w
        (λ e. absurd (let no = q.0 in cc))
        (λ e. set_active_call-LockedDaemon m w (let no = q.1 in ground arith) h) h
  step-LockedDaemon (system_message properties session_active m) w q h =
      system_filter_function-Keeps (handlers P) LockedDaemon (handlers-LockedDaemon P) properties
        session_active m w (λ e. absurd (cc)) h
  step-LockedDaemon (alarm_idled id fullscreen) w q h =
      alarm_step-Keeps P LockedDaemon signals-LockedDaemon id fullscreen w h
  step-LockedDaemon alarm_resumed w q h = emit-LockedDaemon P 1 (some ListenerWayland.resumed) w h
  step-LockedDaemon (x11_timer fullscreen info) w q h =
      timer_step-Keeps P LockedDaemon signals-LockedDaemon fullscreen info w h
  step-LockedDaemon (x11_notify fullscreen state) w q h =
      notify_step-Keeps P LockedDaemon signals-LockedDaemon fullscreen state w h
  step-LockedDaemon (settings_changed p) w q h = h
  step-LockedDaemon (time_passes seconds) w q h = h

  -- Whatever the daemon meets while the screen is locked, in any order and any number of times, other
  -- than Quit and SetActive(FALSE) on the session bus, Unlock of logind, a request to the manager to
  -- deactivate and a dialog that answers OK: the screen saver is active and the screen is locked
  -- afterwards.
  pub run-LockedDaemon :
      (es : List DaemonEvent) (w : W)
      → All (KeepsLock P) es
      → LockedDaemon w
      → LockedDaemon (run P es w)
  unfolding run
  run-LockedDaemon [] w q h = h
  run-LockedDaemon (e ∷ es) w q h =
      run-LockedDaemon es (step P e w) q.1 (step-LockedDaemon e w q.0 h)
