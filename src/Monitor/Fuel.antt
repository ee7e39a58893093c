-- ===== src/Monitor/Fuel.antt =====
-- How deep the handlers of the daemon's signals call each other (src/gs-monitor.c,
-- src/gs-listener-dbus.c): an activation within the handlers of another emits nothing.
use xfce4_screensaver.Base.{
  ℕ, zero, suc, ◌≡◌, Bool, true, false, not, ◌&&◌, Option, none, some, if_elim, if_same,
  if◌then◌else◌, refl, ap, ◌∙◌, sym, arith,
}
use xfce4_screensaver.Listener.{Signal, activate, lock, poke}
use xfce4_screensaver.ListenerX11.{ListenerX11}
use xfce4_screensaver.ListenerWayland
use xfce4_screensaver.ListenerWayland.{ListenerWayland}
use xfce4_screensaver.ListenerDbus.{World, Activator}
use xfce4_screensaver.ListenerDbus.Activation.{
  activate_saver, set_active_internal, same, is_inhibited,
}
use xfce4_screensaver.Manager.{Manager, Platform}
use xfce4_screensaver.Manager.Locker.{enable_locker}
use xfce4_screensaver.Manager.Saver
use xfce4_screensaver.Monitor.{
  Daemon, Idle, x11, wayland, on_manager, on_wayland, listener_dbus_lock_cb, listener_activate_cb,
  listener_lock_cb, emit, manager_activated, manager_deactivated, notify, active_changed, activator,
}

idle_same {ℓ} :
    {R : Type ℓ} (i : Idle) {f f' : ListenerX11 → R} {g g' : ListenerWayland → R}
    → ((l : ListenerX11) → f l ≡ f' l)
    → ((l : ListenerWayland) → g l ≡ g' l)
    → (elim i [ x11 l ↦ f l | wayland l ↦ g l ]) ≡ (elim i [ x11 l ↦ f' l | wayland l ↦ g' l ])
idle_same (x11 l) on_x11 on_wl = on_x11 l
idle_same (wayland l) on_x11 on_wl = on_wl l

pub idle_elim {ℓ κ} :
    {A : Type ℓ} (R : A → Type κ) (i : Idle) {f : ListenerX11 → A} {g : ListenerWayland → A}
    → ((l : ListenerX11) → R (f l))
    → ((l : ListenerWayland) → R (g l))
    → R (elim i [ x11 l ↦ f l | wayland l ↦ g l ])
idle_elim R (x11 l) on_x11 on_wl = on_x11 l
idle_elim R (wayland l) on_x11 on_wl = on_wl l

module _ {Grab : Type 0} (P : Platform Grab) where
  -- The manager is as an activation asks for it already.
  pub saver_settled :
      (on : Bool) (m : Manager Grab) → m.active ≡ on → Saver.activate_saver P on m ≡ (true, m)
  unfolding Saver.activate_saver Saver.activate Saver.deactivate
  saver_settled true m e =
      if_elim (λ (r : Bool × Manager Grab). r ≡ (true, m)) m.active (λ _. refl) (λ off. absurd (cc))
  saver_settled false m e =
      if_elim (λ (r : Bool × Manager Grab). r ≡ (true, m)) m.active (λ on. absurd (cc)) (λ _. refl)

  pub notify_nothing :
      (A : Activator (Daemon Grab)) (before : Bool) (w : World (Daemon Grab))
      → w.rest.manager.active ≡ before
      → notify P A before w ≡ w
  unfolding notify
  notify_nothing A before w e =
      if_elim (λ (r : World (Daemon Grab)). r ≡ w) (not before && w.rest.manager.active)
        (λ h. absurd (ground arith))
        λ _.
          if_elim (λ (r : World (Daemon Grab)). r ≡ w) (before && not w.rest.manager.active)
            (λ h. absurd (ground arith)) (λ _. refl)

  pub active_changed_settled :
      (n : ℕ) (on : Bool) (w : World (Daemon Grab))
      → w.rest.manager.active ≡ on
      → (activator P n).active_changed on w ≡ (true, w)
  unfolding activator active_changed
  active_changed_settled zero on w e =
      ap (λ (r : Bool × Manager Grab). (r.0, record w { rest = record w.rest { manager = r.1 } }))
        (saver_settled on w.rest.manager e)
  active_changed_settled (suc n) on w e =
      ap
        (λ (r : Bool × Manager Grab). (
          r.0,
          notify P (activator P n) w.rest.manager.active
              (record w { rest = record w.rest { manager = r.1 } }),
        ))
        (saver_settled on w.rest.manager e)
      ∙ ap (λ (v : World (Daemon Grab)). (true, v))
          (notify_nothing (activator P n) w.rest.manager.active w refl)

  -- What activate_saver does with the answer of its handler.
  unfoldable pub with_answer :
      Bool → World (Daemon Grab) → Bool × World (Daemon Grab) → Bool × World (Daemon Grab)
  with_answer on w (res, w') =
      if same w.listener.active on
      then (true, w)
      else if res
      then (true, record w' { listener = set_active_internal w'.rest.clock on w'.listener })
      else (false, w')

  pub with_answer_eq :
      (n : ℕ) (on : Bool) (w : World (Daemon Grab))
      → activate_saver (activator P n) on w ≡ with_answer on w ((activator P n).active_changed on w)
  unfolding activate_saver with_answer activator
  with_answer_eq zero on w = refl
  with_answer_eq (suc n) on w = refl

  pub nested :
      (k n : ℕ) (on : Bool) (w : World (Daemon Grab))
      → w.rest.manager.active ≡ on
      → activate_saver (activator P k) on w ≡ activate_saver (activator P n) on w
  nested k n on w e =
      with_answer_eq k on w
      ∙ ap (with_answer on w)
          (active_changed_settled k on w e ∙ sym (active_changed_settled n on w e))
      ∙ sym (with_answer_eq n on w)

  lock_cb-nested :
      (k n : ℕ) (w : World (Daemon Grab))
      → w.rest.manager.active ≡ true
      → listener_lock_cb P (activator P k) w ≡ listener_lock_cb P (activator P n) w
  unfolding listener_lock_cb listener_dbus_lock_cb on_manager enable_locker
  lock_cb-nested k n w e =
      let locked = on_manager (enable_locker true) w in
      let same_end = ap (λ (r : Bool × World (Daemon Grab)). r.1) (nested k n true locked e) in
      ap
        (λ (v : World (Daemon Grab)).
          if is_inhibited w.listener then w else if w.rest.manager.prefs.lock_enabled then v else w)
        same_end

  emit-nested :
      (k n : ℕ) (signal : Option Signal) (w : World (Daemon Grab))
      → w.rest.manager.active ≡ true
      → emit P (activator P k) signal w ≡ emit P (activator P n) signal w
  unfolding emit listener_activate_cb
  emit-nested k n none w e = refl
  emit-nested k n (some lock) w e = lock_cb-nested k n w e
  emit-nested k n (some poke) w e = refl
  emit-nested k n (some activate) w e =
      ap (λ (r : Bool × World (Daemon Grab)). if is_inhibited w.listener then w else r.1)
        (nested k n true w e)

  activated-nested :
      (k n : ℕ) (w : World (Daemon Grab))
      → w.rest.manager.active ≡ true
      → manager_activated P (activator P k) w ≡ manager_activated P (activator P n) w
  unfolding manager_activated
  activated-nested k n w e =
      idle_same w.rest.idle (λ _. refl)
        λ l.
          let (signal, l') = ListenerWayland.activated_start w.rest.manager.prefs l in
          ap (on_wayland ListenerWayland.activated_rest)
            (emit-nested k n signal (record w { rest = record w.rest { idle = wayland l' } }) e)

  pub idle_prefs :
      (f : ListenerWayland → ListenerWayland) (w : World (Daemon Grab))
      → (on_wayland f w).rest.manager.active ≡ w.rest.manager.active
  unfolding on_wayland
  idle_prefs f w =
      idle_elim (λ (r : World (Daemon Grab)). r.rest.manager.active ≡ w.rest.manager.active)
        w.rest.idle (λ _. refl) (λ _. refl)

  deactivated-nested :
      (k n : ℕ) (w : World (Daemon Grab))
      → w.rest.manager.active ≡ false
      → manager_deactivated P (activator P k) w ≡ manager_deactivated P (activator P n) w
  unfolding manager_deactivated
  deactivated-nested k n w e =
      ap (λ (r : Bool × World (Daemon Grab)). r.1)
        (nested k n false (on_wayland ListenerWayland.manager_deactivated w)
          (idle_prefs ListenerWayland.manager_deactivated w ∙ e))

  pub notify-nested :
      (k n : ℕ) (before : Bool) (w : World (Daemon Grab))
      → notify P (activator P k) before w ≡ notify P (activator P n) before w
  unfolding notify
  notify-nested k n before w =
      if_same (not before && w.rest.manager.active) (λ h. activated-nested k n w (ground arith))
        λ _.
          if_same (before && not w.rest.manager.active)
            (λ h. deactivated-nested k n w (ground arith)) (λ _. refl)

  -- Whatever the state, a depth of one for the calls of handlers within handlers gives what any
  -- greater depth gives: setting the saver active or inactive through the listener on the buses
  -- ends, with the same answer and the same state.
  pub activate_saver-activator :
      (n : ℕ) (on : Bool) (w : World (Daemon Grab))
      → activate_saver (activator P (suc n)) on w ≡ activate_saver (activator P 1) on w
  unfolding activator active_changed
  activate_saver-activator n on w =
      with_answer_eq (suc n) on w
      ∙ ap
          (λ (v : World (Daemon Grab)).
            with_answer on w ((Saver.activate_saver P on w.rest.manager).0, v))
          (notify-nested n 0 w.rest.manager.active (record w {
            rest = record w.rest { manager = (Saver.activate_saver P on w.rest.manager).1 };
          }))
      ∙ sym (with_answer_eq 1 on w)
