-- ===== src/Monitor/Agreement.antt =====
-- The listener on the buses and the manager agree on whether the screen saver is active
-- (src/gs-monitor.c, src/gs-listener-dbus.c, src/gs-manager.c).
pub mod Handlers
pub mod Falls
pub mod Run
use xfce4_screensaver.Base.{
  ℕ, zero, suc, ◌≡◌, Bool, true, false, not, ◌&&◌, Option, none, some, if_elim, if_same,
  if◌then◌else◌, refl, ap, ◌∙◌, sym, arith, inl, inr, Bool-cases, ◌==◌,
}
use xfce4_screensaver.Prefs.{Prefs}
use xfce4_screensaver.Listener.{Signal, activate, lock, poke}
use xfce4_screensaver.ListenerX11.{ListenerX11}
use xfce4_screensaver.ListenerWayland
use xfce4_screensaver.ListenerWayland.{ListenerWayland}
use xfce4_screensaver.ListenerDbus.{World, Activator, ListenerDbus}
use xfce4_screensaver.ListenerDbus.Activation.{
  activate_saver, set_active_internal, send_signal_active_changed, same, is_inhibited,
}
use xfce4_screensaver.Manager.{Manager, Platform}
use xfce4_screensaver.Manager.Locker.{enable_locker}
use xfce4_screensaver.Manager.Saver
use xfce4_screensaver.Manager.Windows.{create_windows}
use xfce4_screensaver.Manager.Activation.Begin.{active-show_windows}
use xfce4_screensaver.Manager.Activation.Outcome.{activate-Shape, with_taken}
use xfce4_screensaver.Monitor.{
  Daemon, Idle, x11, wayland, on_manager, on_wayland, listener_dbus_lock_cb, listener_activate_cb,
  listener_lock_cb, emit, manager_activated, manager_deactivated, notify, active_changed, activator,
}
use xfce4_screensaver.Monitor.Fuel.{
  idle_elim, nested, active_changed_settled, with_answer, with_answer_eq, saver_settled, idle_prefs,
  notify_nothing,
}

abbrev pub InStep : {Grab : Type 0} → World (Daemon Grab) → Type 0
InStep w = w.listener.active ≡ w.rest.manager.active

module _ {Grab : Type 0} (P : Platform Grab) where
  abbrev W : Type 0
  W = World (Daemon Grab)

  begin_on : (m : Manager Grab) → (Saver.begin P m).active ≡ true
  unfolding Saver.begin
  begin_on m =
      let immediate =
        m.prefs.lock_enabled && m.prefs.lock_with_saver_enabled && m.prefs.lock_timeout == 0 in
      let ready = record m { lock_active = if immediate then true else m.lock_active } in
      let created = create_windows P ready in
      active-show_windows P created.windows (record created { active = true })

  finish_off : (m : Manager Grab) → (Saver.finish P m).active ≡ false
  unfolding Saver.finish enable_locker
  finish_off m = refl

  activate_nothing : (m : Manager Grab) → m.active ≡ true → Saver.activate P m ≡ (true, m)
  unfolding Saver.activate_saver
  activate_nothing m on = saver_settled P true m on

  -- What an answer means for the active flag of the manager.
  abbrev pub Means : Bool → Manager Grab → Bool × Manager Grab → Type 0
  Means on m r = (r.0 ≡ true → r.1.active ≡ on) × (r.0 ≡ false → r.1.active ≡ m.active)

  pub saver-Means : (on : Bool) (m : Manager Grab) → Means on m (Saver.activate_saver P on m)
  unfolding Saver.activate_saver Saver.deactivate
  saver-Means true m = elim (Bool-cases m.active) [
    | inl on ↦ rw (activate_nothing m on) (λ _. on, λ _. refl)
    | inr off ↦
        let (g, l, outcome) = activate-Shape P m off in
        elim outcome [
          | inl e ↦ rw e (λ (h : false ≡ true). absurd (cc), λ _. refl)
          | inr e ↦ rw e (λ _. begin_on (with_taken P g l m), λ (h : true ≡ false). absurd (cc))
        ]
  ]
  saver-Means false m =
      if_elim (Means false m) m.active (λ _. (λ _. finish_off m, λ (h : true ≡ false). absurd (cc)))
        (λ off. (λ _. off, λ _. refl))

  -- An activation that finds the manager as it asks for it changes only the listener.
  pub settled_rest :
      (n : ℕ) (on : Bool) (w : W)
      → w.rest.manager.active ≡ on
      → (activate_saver (activator P n) on w).1.rest ≡ w.rest
  unfolding with_answer
  settled_rest n on w e =
      ap (λ (r : Bool × W). r.1.rest)
        (with_answer_eq P n on w ∙ ap (with_answer P on w) (active_changed_settled P n on w e))
      ∙ if_elim (λ (r : Bool × W). r.1.rest ≡ w.rest) (same w.listener.active on) (λ _. refl)
          (λ _. refl)

  lock_cb-active :
      (n : ℕ) (w : W)
      → w.rest.manager.active ≡ true
      → (listener_lock_cb P (activator P n) w).rest.manager.active ≡ true
  unfolding listener_lock_cb listener_dbus_lock_cb on_manager enable_locker
  lock_cb-active n w e =
      let R = λ (r : W). r.rest.manager.active ≡ true in
      let locked = on_manager (enable_locker true) w in
      if_elim R (is_inhibited w.listener) (λ _. e)
        λ _.
          if_elim R w.rest.manager.prefs.lock_enabled
            (λ _. ap (λ (d : Daemon Grab). d.manager.active) (settled_rest n true locked e) ∙ e)
            (λ _. e)

  emit_locks-active :
      (n : ℕ) (p : Prefs) (l : ListenerWayland) (w : W)
      → w.rest.manager.active ≡ true
      → (emit P (activator P n) (ListenerWayland.activated_start p l).0 w).rest.manager.active
        ≡ true
  unfolding emit ListenerWayland.activated_start
  emit_locks-active n p l w e =
      let R = λ (r : Option Signal × ListenerWayland).
        (emit P (activator P n) r.0 w).rest.manager.active ≡ true in
      if_elim R (not l.has_notifier) (λ _. e)
        λ _.
          if_elim R (not p.lock_with_saver_enabled) (λ _. e)
            λ _. if_elim R (l.lock_timeout == 0) (λ _. lock_cb-active n w e) (λ _. e)

  activated-active :
      (n : ℕ) (w : W)
      → w.rest.manager.active ≡ true
      → (manager_activated P (activator P n) w).rest.manager.active ≡ true
  unfolding manager_activated
  activated-active n w e =
      idle_elim (λ (r : W). r.rest.manager.active ≡ true) w.rest.idle (λ _. e)
        λ l.
          let (signal, l') = ListenerWayland.activated_start w.rest.manager.prefs l in
          let w' = record w { rest = record w.rest { idle = wayland l' } } in
          idle_prefs P ListenerWayland.activated_rest (emit P (activator P n) signal w')
          ∙ emit_locks-active n w.rest.manager.prefs l w' e

  deactivated-active :
      (n : ℕ) (w : W)
      → w.rest.manager.active ≡ false
      → (manager_deactivated P (activator P n) w).rest.manager.active ≡ false
  unfolding manager_deactivated
  deactivated-active n w e =
      let w' = on_wayland ListenerWayland.manager_deactivated w in
      let e' : w'.rest.manager.active ≡ false =
        idle_prefs P ListenerWayland.manager_deactivated w ∙ e in
      ap (λ (d : Daemon Grab). d.manager.active) (settled_rest n false w' e') ∙ e'

  -- The handlers of the manager's signals leave it active or inactive, as it is.
  pub notify-active :
      (n : ℕ) (before : Bool) (w : W)
      → (notify P (activator P n) before w).rest.manager.active ≡ w.rest.manager.active
  unfolding notify
  notify-active n before w =
      let R = λ (r : W). r.rest.manager.active ≡ w.rest.manager.active in
      if_elim R (not before && w.rest.manager.active)
        (λ h.
          let on : w.rest.manager.active ≡ true = ground arith in activated-active n w on ∙ sym on)
        λ _.
          if_elim R (before && not w.rest.manager.active)
            (λ h.
              let off : w.rest.manager.active ≡ false = ground arith in
              deactivated-active n w off ∙ sym off)
            (λ _. refl)

  -- The answer of the handler of "active-changed", for the daemon's state.
  answer_means :
      (n : ℕ) (on : Bool) (w : W)
      → let r = (activator P n).active_changed on w in
        (r.0 ≡ true → r.1.rest.manager.active ≡ on)
        × (r.0 ≡ false
            → (r.1.rest.manager.active ≡ w.rest.manager.active) × (r.1.listener ≡ w.listener))
  unfolding activator active_changed
  answer_means zero on w =
      let (yes_case, no_case) = saver-Means on w.rest.manager in (yes_case, λ h. (no_case h, refl))
  answer_means (suc n) on w =
      let (yes_case, no_case) = saver-Means on w.rest.manager in
      let m = (Saver.activate_saver P on w.rest.manager).1 in
      let w' = record w { rest = record w.rest { manager = m } } in
      let kept = notify-active n w.rest.manager.active w' in
      (
        λ h. kept ∙ yes_case h,
        λ h. (
          kept ∙ no_case h,
          ap (λ (v : W). v.listener)
              (notify_nothing P (activator P n) w.rest.manager.active w' (no_case h)),
        ),
      )

  pub set_active_internal-active :
      (now : ℕ) (on : Bool) (l : ListenerDbus) → (set_active_internal now on l).active ≡ on
  unfolding set_active_internal send_signal_active_changed
  set_active_internal-active now on l = ground arith

  -- Setting the saver active or inactive through the listener on the buses keeps the agreement.
  pub activate_saver-InStep :
      (n : ℕ) (on : Bool) (w : W) → InStep w → InStep (activate_saver (activator P n) on w).1
  unfolding with_answer
  activate_saver-InStep n on w h =
      let r = (activator P n).active_changed on w in
      let (yes_case, no_case) = answer_means n on w in
      rw (with_answer_eq P n on w) (
        if_elim (λ (r : Bool × W). InStep r.1) (same w.listener.active on) (λ _. h)
          λ _.
            if_elim (λ (r : Bool × W). InStep r.1) r.0
              (λ e. set_active_internal-active r.1.rest.clock on r.1.listener ∙ sym (yes_case e))
              (λ e. ap (λ (l : ListenerDbus). l.active) (no_case e).1 ∙ h ∙ sym (no_case e).0))
