-- ===== src/Monitor/Unlockable.antt =====
-- The alarm for the activation on Wayland where locking is turned off (src/gs-listener-wayland.c,
-- src/gs-monitor.c).
use xfce4_screensaver.Base.{
  ◌≡◌, Bool, true, false, ◌&&◌, not, Option, some, if_elim, refl, arith, ◌==◌, ap, ◌∙◌,
}
use xfce4_screensaver.Prefs.{Prefs}
use xfce4_screensaver.Listener.{Signal, lock}
use xfce4_screensaver.ListenerWayland
use xfce4_screensaver.ListenerWayland.{ListenerWayland, alarm_activate, alarm_is_active}
use xfce4_screensaver.ListenerDbus.{World}
use xfce4_screensaver.ListenerDbus.Activation.{is_inhibited}
use xfce4_screensaver.Manager.{Platform}
use xfce4_screensaver.Monitor
use xfce4_screensaver.Monitor.{
  Daemon, alarm_step, emit, activator, on_wayland, listener_lock_cb, listener_dbus_lock_cb,
}

module _ {Grab : Type 0} (P : Platform Grab) where
  abbrev W : Type 0
  W = World (Daemon Grab)

  emit_lock :
      (w : W) → w.rest.manager.prefs.lock_enabled ≡ false → emit P (activator P 1) (some lock) w ≡ w
  unfolding emit listener_lock_cb listener_dbus_lock_cb
  emit_lock w off =
      if_elim (λ (r : W). r ≡ w) (is_inhibited w.listener) (λ _. refl)
        λ _.
          if_elim (λ (r : W). r ≡ w) w.rest.manager.prefs.lock_enabled (λ on. absurd (cc))
            (λ _. refl)

  asks_lock :
      (p : Prefs) (fullscreen : Bool) (l : ListenerWayland)
      → p.lock_with_saver_enabled ≡ true
      → l.lock_timeout ≡ 0
      → (p.fullscreen_inhibit && fullscreen) ≡ false
      → ListenerWayland.idled_start p fullscreen alarm_activate l ≡ (some lock, l)
  unfolding ListenerWayland.idled_start
  asks_lock p fullscreen l with_saver at_once f =
      let R = λ (r : Option Signal × ListenerWayland). r ≡ (some lock, l) in
      if_elim R (p.fullscreen_inhibit && fullscreen) (λ on. absurd (cc))
        λ _.
          if_elim R (p.lock_with_saver_enabled && l.lock_timeout == 0) (λ _. refl)
            (λ no_lock. absurd (ground arith))

  -- With locking turned off, while the settings for a lock with the saver and for a lock without delay
  -- are still on, the alarm for the activation changes nothing on Wayland: it asks for a lock, which
  -- is refused, and the screen saver does not become active.
  pub alarm_step_ignored :
      (fullscreen : Bool) (l : ListenerWayland) (w : W)
      → w.rest.manager.prefs.lock_enabled ≡ false
      → w.rest.manager.prefs.lock_with_saver_enabled ≡ true
      → l.lock_timeout ≡ 0
      → (w.rest.manager.prefs.fullscreen_inhibit && fullscreen) ≡ false
      → let idling = record w { rest = record w.rest { idle = Monitor.wayland l } } in
        alarm_step P alarm_activate fullscreen idling ≡ idling
  unfolding alarm_step on_wayland ListenerWayland.idled_rest
  alarm_step_ignored fullscreen l w off with_saver at_once f =
      let idling = record w { rest = record w.rest { idle = Monitor.wayland l } } in
      let ends = on_wayland (ListenerWayland.idled_rest alarm_activate) in
      if_elim (λ (r : W). r ≡ idling) (not (alarm_is_active alarm_activate l)) (λ _. refl)
        λ _.
          ap
            (λ (r : Option Signal × ListenerWayland). ends (
              emit P (activator P 1) r.0
                (record w { rest = record w.rest { idle = Monitor.wayland r.1 } })))
            (asks_lock w.rest.manager.prefs fullscreen l with_saver at_once f)
          ∙ ap ends (emit_lock idling off)
