-- ===== src/Manager/Abstract.antt =====
-- The manager (src/gs-manager.c) as a saver that rests, or is active with the screen unlocked or
-- locked.
pub mod Refines
use xfce4_screensaver.Base.{
  ℕ, zero, suc, ◌≡◌, ◌⊎◌, inl, inr, Bool, true, false, not, List, [], ◌∷◌, if_elim, option_elim,
  OnSome-anything, refl, sym, ◌∙◌,
}
use mathlib.Core.Path.{subst}
use xfce4_screensaver.Manager.{Manager, Platform}
use xfce4_screensaver.Manager.Active.{Alike}
use xfce4_screensaver.Manager.Active.Events.{IsQuiet, may_lock, Locks, step-Locks}
use xfce4_screensaver.Manager.Locker.{enable_locker}
use xfce4_screensaver.Manager.Activation.Begin.{active-show_windows}
use xfce4_screensaver.Manager.Saver.{
  activate, deactivate, activate_saver, grab_devices, lock_session, begin, finish,
}
use xfce4_screensaver.Manager.Step.{
  Event, key_press, pointer_activity, lock_socket_shown, popup_idle, deactivated_idle,
  dialog_output, visibility, window_mapped, grab_broken, lock_timer_fires, cycle_timer_fires,
  manager_idle, monitors_changed, display_changed, prefs_changed, unlock_requested, cycle_requested,
  lock_enabled, throttle_changed, status_message, saver_activated, window_deactivated_idle, step,
  run,
}

-- What a saver promises to be.
pub data Saver : Type 0 where
  resting unlocked locked : Saver

unfoldable pub saver_of : Bool → Bool → Saver
saver_of false lock = resting
saver_of true false = unlocked
saver_of true true = locked

-- The view of a manager, which forgets all but two of its flags.
unfoldable pub saver : {Grab : Type 0} → Manager Grab → Saver
unfolding saver_of
saver m = saver_of m.active m.lock_active

unfoldable pub is_on : Saver → Bool
is_on resting = false
is_on unlocked = true
is_on locked = true

-- The events at which the screen may be given back: a request to deactivate, and the idle source that
-- a dialog's acceptance leads to.
unfoldable pub gives_back : Event → Bool
gives_back (saver_activated on) = not on
gives_back manager_idle = true
gives_back _ = false

-- The specification: an event leaves the saver, locks it if it is one that may, activates it if it asks
-- for that, or deactivates it if it is one that may. There is no way from locked to unlocked but through a rest.
pub data Next : Event → Saver → Saver → Type 0 where
  stays : (e : Event) (s : Saver) → Next e s s
  locks : (e : Event) → may_lock e ≡ true → Next e unlocked locked
  activates : (s : Saver) → is_on s ≡ true → Next (saver_activated true) resting s
  deactivates : (e : Event) (s : Saver) → gives_back e ≡ true → Next e s resting

pub data Steps : List Event → Saver → Saver → Type 0 where
  done : (s : Saver) → Steps [] s s
  more :
      (e : Event) (es : List Event) (s t u : Saver) → Next e s t → Steps es t u → Steps (e ∷ es) s u

pub grows_next :
    (e : Event) (a l a' l' : Bool)
    → may_lock e ≡ true
    → a' ≡ a
    → (l ≡ true → l' ≡ true)
    → Next e (saver_of a l) (saver_of a' l')
unfolding saver_of
grows_next e false l false l' may same up = stays e resting
grows_next e false l true l' may same up = absurd (cc)
grows_next e true l false l' may same up = absurd (cc)
grows_next e true false true false may same up = stays e unlocked
grows_next e true false true true may same up = locks e may
grows_next e true true true false may same up = absurd (let bad = up refl in cc)
grows_next e true true true true may same up = stays e locked

pub alike_next :
    (e : Event) (a l a' l' : Bool) → a' ≡ a → l' ≡ l → Next e (saver_of a l) (saver_of a' l')
alike_next e a l a' l' same kept =
    subst (λ (x : Bool). Next e (saver_of a l) (saver_of x l')) (sym same)
      (subst (λ (y : Bool). Next e (saver_of a l) (saver_of a y)) (sym kept)
        (stays e (saver_of a l)))

pub activates_of :
    (a l a' l' : Bool)
    → a ≡ false
    → a' ≡ true
    → Next (saver_activated true) (saver_of a l) (saver_of a' l')
unfolding saver_of is_on
activates_of true l a' l' off on = absurd (cc)
activates_of false l false l' off on = absurd (cc)
activates_of false l true false off on = activates unlocked refl
activates_of false l true true off on = activates locked refl

pub deactivates_of :
    (e : Event) (s : Saver) (a l : Bool) → gives_back e ≡ true → a ≡ false → Next e s (saver_of a l)
unfolding saver_of
deactivates_of e s false l gives off = deactivates e s gives
deactivates_of e s true l gives off = absurd (cc)
