-- ===== src/Monitor/Agreement/Falls.antt =====
-- An event of the main loop leaves the screen saver as it is or makes it inactive
-- (src/gs-manager.c, src/gs-window.c).
use xfce4_screensaver.Base.{ℕ, zero, suc, ◌≡◌, false, ◌⊎◌, inl, inr, refl, Bool-cases}
use xfce4_screensaver.Manager.{Manager, Platform}
use xfce4_screensaver.Manager.Saver
use xfce4_screensaver.Manager.Step
use xfce4_screensaver.Manager.Step.{Event, manager_idle, saver_activated, window_deactivated_idle}
use xfce4_screensaver.Manager.Active.Events.{step-As}
use xfce4_screensaver.Monitor.{DaemonEvent, manager_event}
use xfce4_screensaver.Monitor.Agreement.{saver-Means}

-- The events of the manager that reach the daemon by themselves: the saver is activated through
-- the listener on the buses only.
abbrev pub FromLoop : DaemonEvent → Type 0
FromLoop (manager_event (saver_activated _)) = ⊥
FromLoop _ = Unit

module _ {Grab : Type 0} (P : Platform Grab) where
  -- An operation on the manager may leave the saver as it is or make it inactive.
  abbrev pub Falls : Manager Grab → Manager Grab → Type 0
  Falls m r = (r.active ≡ m.active) ⊎ (r.active ≡ false)

  window_deactivated_idle-Falls :
      (n : ℕ) (m : Manager Grab) → Falls m (window_deactivated_idle P n m)
  unfolding window_deactivated_idle
  window_deactivated_idle-Falls zero m = inl refl
  window_deactivated_idle-Falls (suc n) m =
      let (yes_case, no_case) = saver-Means P false (record m { deactivate_idles = n }) in
      let r = Saver.activate_saver P false (record m { deactivate_idles = n }) in
      elim (Bool-cases r.0) [ inl e ↦ inr (yes_case e) | inr e ↦ inl (no_case e) ]

  pub step-Falls :
      (e : Event) (m : Manager Grab) → FromLoop (manager_event e) → Falls m (Step.step P e m)
  unfolding Step.step
  step-Falls (saver_activated on) m q = elim q [ ]
  step-Falls manager_idle m q = window_deactivated_idle-Falls m.deactivate_idles m
  step-Falls (Step.key_press id code keyval) m q =
      inl (step-As P (Step.key_press id code keyval) m tt)
  step-Falls (Step.pointer_activity id) m q = inl (step-As P (Step.pointer_activity id) m tt)
  step-Falls (Step.lock_socket_shown id) m q = inl (step-As P (Step.lock_socket_shown id) m tt)
  step-Falls (Step.popup_idle id) m q = inl (step-As P (Step.popup_idle id) m tt)
  step-Falls (Step.deactivated_idle id) m q = inl (step-As P (Step.deactivated_idle id) m tt)
  step-Falls (Step.dialog_output id read) m q = inl (step-As P (Step.dialog_output id read) m tt)
  step-Falls (Step.visibility id on) m q = inl (step-As P (Step.visibility id on) m tt)
  step-Falls (Step.window_mapped id) m q = inl (step-As P (Step.window_mapped id) m tt)
  step-Falls (Step.grab_broken both) m q = inl (step-As P (Step.grab_broken both) m tt)
  step-Falls Step.lock_timer_fires m q = inl (step-As P Step.lock_timer_fires m tt)
  step-Falls Step.cycle_timer_fires m q = inl (step-As P Step.cycle_timer_fires m tt)
  step-Falls (Step.monitors_changed d) m q = inl (step-As P (Step.monitors_changed d) m tt)
  step-Falls (Step.display_changed d) m q = inl (step-As P (Step.display_changed d) m tt)
  step-Falls (Step.prefs_changed p) m q = inl (step-As P (Step.prefs_changed p) m tt)
  step-Falls Step.unlock_requested m q = inl (step-As P Step.unlock_requested m tt)
  step-Falls Step.cycle_requested m q = inl (step-As P Step.cycle_requested m tt)
  step-Falls Step.lock_enabled m q = inl (step-As P Step.lock_enabled m tt)
  step-Falls (Step.throttle_changed on) m q = inl (step-As P (Step.throttle_changed on) m tt)
  step-Falls (Step.status_message s) m q = inl (step-As P (Step.status_message s) m tt)
