-- ===== src/Monitor/Steps.antt =====
-- What a change of the platform's listener and its signals keep, the events of idleness keep
-- (src/gs-monitor.c, src/gs-listener-x11.c, src/gs-listener-wayland.c).
use xfce4_screensaver.Base.{Bool, not, Option, if_elim, option_elim, OnSome-anything}
use xfce4_screensaver.Listener.{Signal}
use xfce4_screensaver.ListenerX11
use xfce4_screensaver.ListenerX11.{IdleInfo, SaverState}
use xfce4_screensaver.ListenerWayland
use xfce4_screensaver.ListenerWayland.{ListenerWayland, AlarmId}
use xfce4_screensaver.ListenerDbus.{World}
use xfce4_screensaver.Manager.{Platform}
use xfce4_screensaver.Monitor
use xfce4_screensaver.Monitor.{
  Daemon, Idle, on_wayland, emit, activator, alarm_step, timer_step, notify_step,
}
use xfce4_screensaver.Monitor.Fuel.{idle_elim}

module _ {Grab : Type 0} (P : Platform Grab) where
  pub record KeepsSignals (K : World (Daemon Grab) → Type 0) : Type 0 where
    pub idle :
        (i : Idle) (w : World (Daemon Grab))
        → K w
        → K (record w { rest = record w.rest { idle = i } })
    pub emitted :
        (signal : Option Signal) (w : World (Daemon Grab))
        → K w
        → K (emit P (activator P 1) signal w)

  module _ (K : World (Daemon Grab) → Type 0) (k : KeepsSignals K) where
    on_wayland-Keeps :
        (f : ListenerWayland → ListenerWayland) (w : World (Daemon Grab)) → K w → K (on_wayland f w)
    unfolding on_wayland
    on_wayland-Keeps f w h =
        idle_elim K w.rest.idle (λ _. h) (λ l. k.idle (Monitor.wayland (f l)) w h)

    pub alarm_step-Keeps :
        (id : AlarmId) (fullscreen : Bool) (w : World (Daemon Grab))
        → K w
        → K (alarm_step P id fullscreen w)
    unfolding alarm_step
    alarm_step-Keeps id fullscreen w h =
        idle_elim K w.rest.idle (λ _. h)
          λ l.
            let (signal, l') = ListenerWayland.idled_start w.rest.manager.prefs fullscreen id l in
            let begun = record w { rest = record w.rest { idle = Monitor.wayland l' } } in
            if_elim K (not (ListenerWayland.alarm_is_active id l)) (λ _. h)
              λ _.
                on_wayland-Keeps (ListenerWayland.idled_rest id)
                  (emit P (activator P 1) signal begun)
                  (k.emitted signal begun (k.idle (Monitor.wayland l') w h))

    pub timer_step-Keeps :
        (fullscreen : Bool) (info : Option IdleInfo) (w : World (Daemon Grab))
        → K w
        → K (timer_step P fullscreen info w)
    unfolding timer_step
    timer_step-Keeps fullscreen info w h =
        idle_elim K w.rest.idle
          (λ l.
            let t = ListenerX11.lock_timer w.rest.manager.prefs fullscreen info l in
            let begun = record w { rest = record w.rest { idle = Monitor.x11 t.listener } } in
            option_elim K (λ _. Unit) l.timer (OnSome-anything l.timer) h
              (λ _ _. k.emitted t.signal begun (k.idle (Monitor.x11 t.listener) w h)))
          (λ _. h)

    pub notify_step-Keeps :
        (fullscreen : Bool) (state : SaverState) (w : World (Daemon Grab))
        → K w
        → K (notify_step P fullscreen state w)
    unfolding notify_step
    notify_step-Keeps fullscreen state w h =
        idle_elim K w.rest.idle
          (λ l.
            let (signal, l') = ListenerX11.xroot_filter w.rest.manager.prefs fullscreen state l in
            let begun = record w { rest = record w.rest { idle = Monitor.x11 l' } } in
            k.emitted signal begun (k.idle (Monitor.x11 l') w h))
          (λ _. h)
