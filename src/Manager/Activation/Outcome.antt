-- ===== src/Manager/Activation/Outcome.antt =====
-- The outcomes of gs_manager_activate (src/gs-manager.c).
use xfce4_screensaver.Base.{
  ◌≡◌, Bool, true, false, not, if_elim, option_elim, OnSome-anything, refl, Option, ◌⊎◌, inl, inr,
  ap, ◌∙◌, [],
}
use xfce4_screensaver.SessionLock.{SessionLock}
use xfce4_screensaver.Manager.{Manager, Platform}
use xfce4_screensaver.Manager.Saver.{activate, begin, grab_devices, lock_session}
use xfce4_screensaver.Manager.Activation.Begin.{IsShownOn, begin-IsShownOn, begin-IsLocked}
use xfce4_screensaver.Manager.Locked.{IsLocked}

module _ {Grab : Type 0} (P : Platform Grab) where
  -- The manager with the devices and the session as an attempt to activate leaves them.
  abbrev pub with_taken : Option Grab → Option SessionLock → Manager Grab → Manager Grab
  with_taken g l m = record m { grab = g; lock_manager = l }

  pub grab_devices_only :
      (m : Manager Grab) → (grab_devices P m).1 ≡ record m { grab = (grab_devices P m).1.grab }
  unfolding grab_devices
  grab_devices_only m =
      option_elim (λ (r : Bool × Manager Grab). r.1 ≡ record m { grab = r.1.grab }) (λ _. Unit)
        m.grab (OnSome-anything m.grab) refl (λ _ _. refl)

  pub lock_session_only :
      (m : Manager Grab)
      → (lock_session P m).1 ≡ record m { lock_manager = (lock_session P m).1.lock_manager }
  unfolding lock_session
  lock_session_only m =
      let R = λ (r : Bool × Manager Grab). r.1 ≡ record m { lock_manager = r.1.lock_manager } in
      if_elim R (not m.display.wayland) (λ _. refl)
        λ _.
          if_elim R (not m.compositor) (λ _. refl)
            λ _.
              option_elim R (λ _. Unit) m.lock_manager (OnSome-anything m.lock_manager) refl
                (λ _ _. refl)

  abbrev pub Shape : Manager Grab → Bool × Manager Grab → Type 0
  Shape m r =
      (g : Option Grab) × (l : Option SessionLock) × ((r ≡ (false, with_taken g l m))
        ⊎ (r ≡ (true, begin P (with_taken g l m))))

  -- An activation of an inactive screen saver fails and changes the grab and the session lock at most,
  -- or it begins.
  pub activate-Shape : (m : Manager Grab) → m.active ≡ false → Shape m (activate P m)
  unfolding activate
  activate-Shape m off =
      let (grabbed, m1) = grab_devices P m in
      let (locked, m2) = lock_session P m1 in
      let only1 : m1 ≡ with_taken m1.grab m.lock_manager m = grab_devices_only m in
      let only2 : m2 ≡ with_taken m1.grab m2.lock_manager m =
        lock_session_only m1
        ∙ ap (λ (n : Manager Grab). record n { lock_manager = m2.lock_manager }) only1 in
      if_elim (Shape m) m.active (λ on. absurd (cc))
        λ _.
          if_elim (Shape m) (not grabbed)
            (λ _. (m1.grab, m.lock_manager, inl (ap (λ (n : Manager Grab). (false, n)) only1)))
            λ _.
              if_elim (Shape m) (not locked)
                (λ _. (m1.grab, m2.lock_manager, inl (ap (λ (n : Manager Grab). (false, n)) only2)))
                (λ _. (
                  m1.grab,
                  m2.lock_manager,
                  inr (ap (λ (n : Manager Grab). (true, begin P n)) only2),
                ))

  -- An inactive screen saver without windows that is activated successfully is active, shows a
  -- window on each monitor of the display and no other window, and has emitted "activated" last.
  pub activate-IsShownOn :
      (m : Manager Grab)
      → m.active ≡ false
      → m.windows ≡ []
      → (activate P m).0 ≡ true
      → IsShownOn P m.display.monitors (activate P m).1
  activate-IsShownOn m off none_left done =
      let (g, l, outcome) = activate-Shape m off in
      elim outcome [
        | inl e ↦ absurd (cc)
        | inr e ↦ rw e (begin-IsShownOn P (with_taken g l m) off none_left)
      ]

  -- Where the settings lock the screen with the saver at once, a successful activation of an
  -- inactive screen saver without windows, with no deactivation under way, leaves it locked: it is
  -- active, and it and all its windows have the lock flag.
  pub activate-IsLocked :
      (m : Manager Grab)
      → m.active ≡ false
      → m.windows ≡ []
      → m.deactivate_idles ≡ 0
      → m.prefs.lock_enabled ≡ true
      → m.prefs.lock_with_saver_enabled ≡ true
      → m.prefs.lock_timeout ≡ 0
      → (activate P m).0 ≡ true
      → IsLocked (activate P m).1
  activate-IsLocked m off none_left idle on with_saver at_once done =
      let (g, l, outcome) = activate-Shape m off in
      elim outcome [
        | inl e ↦ absurd (cc)
        | inr e ↦
            rw e (begin-IsLocked P (with_taken g l m) off none_left idle on with_saver at_once)
      ]
