-- ===== src/Manager/Abstract/Refines.antt =====
-- The manager of src/gs-manager.c implements the abstract saver.
use xfce4_screensaver.Base.{
  ℕ, zero, suc, ◌≡◌, ◌⊎◌, inl, inr, Bool, true, false, not, List, [], ◌∷◌, if_elim, option_elim,
  OnSome-anything, refl, sym, ◌∙◌,
}
use mathlib.Core.Path.{subst}
use xfce4_screensaver.Manager.{Manager, Platform}
use xfce4_screensaver.Manager.Active.{Alike}
use xfce4_screensaver.Manager.Active.Events.{IsQuiet, may_lock, Locks, step-Locks}
use xfce4_screensaver.Manager.Locker.{enable_locker}
use xfce4_screensaver.Manager.Activation.Begin.{active-show_windows}
use xfce4_screensaver.Manager.Saver.{
  activate, deactivate, activate_saver, grab_devices, lock_session, begin, finish,
}
use xfce4_screensaver.Manager.Step.{
  Event, key_press, pointer_activity, lock_socket_shown, popup_idle, deactivated_idle,
  dialog_output, visibility, window_mapped, grab_broken, lock_timer_fires, cycle_timer_fires,
  manager_idle, monitors_changed, display_changed, prefs_changed, unlock_requested, cycle_requested,
  lock_enabled, throttle_changed, status_message, saver_activated, window_deactivated_idle, step,
  run,
}
use xfce4_screensaver.Manager.Abstract.{
  saver, gives_back, Next, stays, Steps, done, more, grows_next, alike_next, activates_of,
  deactivates_of,
}

module _ {Grab : Type 0} (P : Platform Grab) where
  IsQuiet-cases :
      (e : Event) → IsQuiet P e ⊎ (e ≡ manager_idle) ⊎ ((on : Bool) × (e ≡ saver_activated on))
  IsQuiet-cases (key_press id code keyval) = inl tt
  IsQuiet-cases (pointer_activity id) = inl tt
  IsQuiet-cases (lock_socket_shown id) = inl tt
  IsQuiet-cases (popup_idle id) = inl tt
  IsQuiet-cases (deactivated_idle id) = inl tt
  IsQuiet-cases (dialog_output id read) = inl tt
  IsQuiet-cases (visibility id obscured) = inl tt
  IsQuiet-cases (window_mapped id) = inl tt
  IsQuiet-cases (grab_broken both) = inl tt
  IsQuiet-cases lock_timer_fires = inl tt
  IsQuiet-cases cycle_timer_fires = inl tt
  IsQuiet-cases manager_idle = inr (inl refl)
  IsQuiet-cases (monitors_changed d) = inl tt
  IsQuiet-cases (display_changed d) = inl tt
  IsQuiet-cases (prefs_changed p) = inl tt
  IsQuiet-cases unlock_requested = inl tt
  IsQuiet-cases cycle_requested = inl tt
  IsQuiet-cases lock_enabled = inl tt
  IsQuiet-cases (throttle_changed on) = inl tt
  IsQuiet-cases (status_message message) = inl tt
  IsQuiet-cases (saver_activated on) = inr (inr (on, refl))

  abbrev On : Event → Manager Grab → Manager Grab → Type 0
  On e m r = Next e (saver m) (saver r)

  Alike-Next : (e : Event) (m r : Manager Grab) → Alike P m r → On e m r
  unfolding saver
  Alike-Next e m r h = alike_next e m.active m.lock_active r.active r.lock_active h.0 h.1

  Locks-Next :
      (b : Bool) (e : Event) (m r : Manager Grab)
      → may_lock e ≡ b
      → r.active ≡ m.active
      → Locks P b m r
      → On e m r
  unfolding saver
  Locks-Next true e m r may same up =
      grows_next e m.active m.lock_active r.active r.lock_active may same up
  Locks-Next false e m r may same kept = Alike-Next e m r (same, kept)

  grab_devices-Alike : (m : Manager Grab) → Alike P m (grab_devices P m).1
  unfolding grab_devices
  grab_devices-Alike m =
      option_elim (λ (r : Bool × Manager Grab). Alike P m r.1) (λ _. Unit) m.grab
        (OnSome-anything m.grab) (refl, refl) (λ _ _. (refl, refl))

  lock_session-Alike : (m : Manager Grab) → Alike P m (lock_session P m).1
  unfolding lock_session
  lock_session-Alike m =
      let R = λ (r : Bool × Manager Grab). Alike P m r.1 in
      if_elim R (not m.display.wayland) (λ _. (refl, refl))
        λ _.
          if_elim R (not m.compositor) (λ _. (refl, refl))
            λ _.
              option_elim R (λ _. Unit) m.lock_manager (OnSome-anything m.lock_manager) (refl, refl)
                (λ _ _. (refl, refl))

  begin_is_on : (m : Manager Grab) → (begin P m).active ≡ true
  unfolding begin
  begin_is_on m = active-show_windows P _ _

  activate-Next : (m : Manager Grab) → On (saver_activated true) m (activate P m).1
  unfolding activate saver
  activate-Next m =
      let e = saver_activated true in
      let R = λ (r : Bool × Manager Grab). On e m r.1 in
      let (grabbed, m1) = grab_devices P m in
      let (taken, m2) = lock_session P m1 in
      let first = grab_devices-Alike m in
      let second = lock_session-Alike m1 in
      if_elim R m.active (λ _. stays e (saver m))
        λ off.
          if_elim R (not grabbed) (λ _. Alike-Next e m m1 first)
            λ _.
              if_elim R (not taken)
                (λ _. Alike-Next e m m2 (second.0 ∙ first.0, second.1 ∙ first.1))
                (λ _.
                  let r = begin P m2 in
                  activates_of m.active m.lock_active r.active r.lock_active off (begin_is_on m2))

  deactivate-Next : (e : Event) (m : Manager Grab) → gives_back e ≡ true → On e m (deactivate P m).1
  unfolding deactivate finish saver enable_locker
  deactivate-Next e m gives =
      if_elim (λ (r : Bool × Manager Grab). On e m r.1) m.active
        (λ _. deactivates_of e (saver m) false false gives refl) (λ _. stays e (saver m))

  saver_activated-Next :
      (on : Bool) (m : Manager Grab) → On (saver_activated on) m (activate_saver P on m).1
  unfolding activate_saver gives_back
  saver_activated-Next true m = activate-Next m
  saver_activated-Next false m = deactivate-Next (saver_activated false) m refl

  idle-Next : (n : ℕ) (m : Manager Grab) → On manager_idle m (window_deactivated_idle P n m)
  unfolding window_deactivated_idle activate_saver gives_back saver
  idle-Next zero m = stays manager_idle (saver m)
  idle-Next (suc n) m = deactivate-Next manager_idle (record m { deactivate_idles = n }) refl

  step-Next : (e : Event) (m : Manager Grab) → On e m (step P e m)
  unfolding step
  step-Next e m = elim (IsQuiet-cases e) [
    | inl quiet ↦
        let (same, lock) = step-Locks P e m quiet in
        Locks-Next (may_lock e) e m (step P e m) refl same lock
    | inr (inl is) ↦
        subst (λ (e : Event). On e m (step P e m)) (sym is) (idle-Next m.deactivate_idles m)
    | inr (inr (on, is)) ↦
        subst (λ (e : Event). On e m (step P e m)) (sym is) (saver_activated-Next on m)
  ]

  -- The manager implements the abstract saver: under every sequence of events of the main loop, its
  -- view goes through steps of the specification, in which only a request to activate leaves the rest,
  -- only a request to deactivate or the idle source of a dialog's acceptance leads to it, only the lock
  -- timer, a request to lock and a change of the monitors lock a saver that is on, and a locked saver
  -- becomes unlocked only through a rest.
  pub run-Steps : (es : List Event) (m : Manager Grab) → Steps es (saver m) (saver (run P es m))
  unfolding run
  run-Steps [] m = done (saver m)
  run-Steps (e ∷ es) m =
      let m' = step P e m in
      more e es (saver m) (saver m') (saver (run P es m')) (step-Next e m) (run-Steps es m')
