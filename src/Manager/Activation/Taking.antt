-- ===== src/Manager/Activation/Taking.antt =====
-- What an attempt to activate takes (src/gs-manager.c): the devices on X11, and the session on Wayland.
use xfce4_screensaver.Base.{
  ◌≡◌, Bool, true, false, not, none, some, Option, ◌⊎◌, inl, inr, if_elim, option_cases, refl,
  arith, Bool-cases, ap, ◌∙◌,
}
use mathlib.Core.Path.{subst}
use xfce4_screensaver.SessionLock
use xfce4_screensaver.SessionLock.{SessionLock}
use xfce4_screensaver.Grab.{root_window, GrabLaws}
use xfce4_screensaver.Manager.{Manager, Platform}
use xfce4_screensaver.Manager.Saver.{activate, begin, grab_devices, lock_session}
use xfce4_screensaver.Manager.Activation.Outcome.{with_taken, grab_devices_only, lock_session_only}

module _ {Grab : Type 0} (P : Platform Grab) (laws : GrabLaws P.grabs) where
  -- The devices are taken, and then the root window has the grab; on Wayland there is no grab to take.
  abbrev pub DevicesTaken : Manager Grab → Option Grab → Type 0
  DevicesTaken m g =
      ((m.grab ≡ none) × (g ≡ none))
      ⊎ ((g0 : Grab) × (g1 : Grab) × (m.grab ≡ some g0)
          × (P.grabs.grab_root false g0 ≡ (true, g1))
          × (g ≡ some g1)
          × (P.grabs.holder g1 ≡ some root_window))

  abbrev pub DevicesRefused : Manager Grab → Option Grab → Type 0
  DevicesRefused m g =
      (g0 : Grab) × (g1 : Grab) × (m.grab ≡ some g0)
      × (P.grabs.grab_root false g0 ≡ (false, g1))
      × (g ≡ some g1)

  -- On Wayland the session is taken by a lock object; on X11 none is needed.
  abbrev pub SessionTaken : Manager Grab → Option SessionLock → Type 0
  SessionTaken m l =
      ((m.display.wayland ≡ false) × (l ≡ m.lock_manager))
      ⊎ ((m.display.wayland ≡ true)
          × (m.compositor ≡ true)
          × ((l0 : SessionLock) × (l1 : SessionLock) × (m.lock_manager ≡ some l0)
              × (SessionLock.lock P.lock_events l0 ≡ (true, l1))
              × (l ≡ some l1)
              × (l1.wl_lock ≡ true)))

  abbrev pub SessionRefused : Manager Grab → Option SessionLock → Type 0
  SessionRefused m l =
      (m.display.wayland ≡ true)
      × (((m.compositor ≡ false) × (l ≡ m.lock_manager))
          ⊎ (((m.lock_manager ≡ none) × (l ≡ none))
              ⊎ ((l0 : SessionLock) × (l1 : SessionLock) × (m.lock_manager ≡ some l0)
                  × (SessionLock.lock P.lock_events l0 ≡ (false, l1))
                  × (l ≡ some l1))))

  grab_devices_cases :
      (m : Manager Grab)
      → (((grab_devices P m).0 ≡ true) × DevicesTaken m (grab_devices P m).1.grab)
        ⊎ (((grab_devices P m).0 ≡ false) × DevicesRefused m (grab_devices P m).1.grab)
  unfolding grab_devices
  grab_devices_cases m =
      let R = λ (r : Bool × Manager Grab).
        ((r.0 ≡ true) × DevicesTaken m r.1.grab) ⊎ ((r.0 ≡ false) × DevicesRefused m r.1.grab) in
      option_cases R m.grab (λ e. inl (refl, inl (e, e)))
        λ g e. elim (Bool-cases (P.grabs.grab_root false g).0) [
          | inl taken ↦
              let g1 = (P.grabs.grab_root false g).1 in
              inl (
                taken,
                inr (g, g1, e, ap (λ b. (b, g1)) taken, refl, laws.holder-grab_root false g taken),
              )
          | inr refused ↦
              let g1 = (P.grabs.grab_root false g).1 in
              inr (refused, (g, g1, e, ap (λ b. (b, g1)) refused, refl))
        ]

  granted_lock :
      (l : SessionLock)
      → (SessionLock.lock P.lock_events l).0 ≡ true
      → (SessionLock.lock P.lock_events l).1.wl_lock ≡ true
  unfolding SessionLock.lock
  granted_lock l e = ground arith

  lock_session_cases :
      (m : Manager Grab)
      → (((lock_session P m).0 ≡ true) × SessionTaken m (lock_session P m).1.lock_manager)
        ⊎ (((lock_session P m).0 ≡ false) × SessionRefused m (lock_session P m).1.lock_manager)
  unfolding lock_session
  lock_session_cases m =
      let R = λ (r : Bool × Manager Grab).
        ((r.0 ≡ true) × SessionTaken m r.1.lock_manager)
        ⊎ ((r.0 ≡ false) × SessionRefused m r.1.lock_manager) in
      if_elim R (not m.display.wayland) (λ e. inl (refl, inl (ground arith, refl)))
        λ on_wayland.
          let wayland : m.display.wayland ≡ true = ground arith in
          if_elim R (not m.compositor) (λ e. inr (refl, (wayland, inl (ground arith, refl))))
            λ has_compositor.
              option_cases R m.lock_manager (λ e. inr (refl, (wayland, inr (inl (e, e)))))
                λ l e. elim (Bool-cases (SessionLock.lock P.lock_events l).0) [
                  | inl granted ↦
                      let l1 = (SessionLock.lock P.lock_events l).1 in
                      inl (
                        granted,
                        inr (
                          wayland,
                          ground arith,
                          (l, l1, e, ap (λ b. (b, l1)) granted, refl, granted_lock l granted),
                        ),
                      )
                  | inr refused ↦
                      let l1 = (SessionLock.lock P.lock_events l).1 in
                      inr
                        (refused, (wayland, inr (inr (l, l1, e, ap (λ b. (b, l1)) refused, refl))))
                ]

  -- The three ways an activation ends.
  abbrev pub Outcome : Manager Grab → Bool × Manager Grab → Type 0
  Outcome m r =
      ((g : Option Grab) × DevicesRefused m g × (r ≡ (false, with_taken P g m.lock_manager m)))
      ⊎ (((g : Option Grab) × (l : Option SessionLock) × DevicesTaken m g
            × SessionRefused m l
            × (r ≡ (false, with_taken P g l m)))
          ⊎ ((g : Option Grab) × (l : Option SessionLock) × DevicesTaken m g
              × SessionTaken m l
              × (r ≡ (true, begin P (with_taken P g l m)))))

  -- An activation of an inactive screen saver, with a grab that keeps its laws, ends in one of three
  -- ways. The devices are refused: it
  -- fails, has not asked for the session, and has changed nothing but the grab. The devices are taken
  -- and the session is refused, since the compositor has no protocol for it, or there is no lock
  -- manager, or the lock fails: it fails, and has changed nothing but the grab and the session lock.
  -- Or both are taken, so that on X11 the root window has the grab and on Wayland there is a lock
  -- object: it succeeds, and the saver begins with them.
  pub activate-Outcome : (m : Manager Grab) → m.active ≡ false → Outcome m (activate P m)
  unfolding activate
  activate-Outcome m off =
      let (grabbed, m1) = grab_devices P m in
      let (locked, m2) = lock_session P m1 in
      let g = m1.grab in
      let l = m2.lock_manager in
      let only1 : m1 ≡ with_taken P g m.lock_manager m = grab_devices_only P m in
      let only2 : m2 ≡ with_taken P g l m =
        lock_session_only P m1 ∙ ap (λ (n : Manager Grab). record n { lock_manager = l }) only1 in
      if_elim (Outcome m) m.active (λ on. absurd (cc))
        λ _. elim (grab_devices_cases m) [
          | inr (fails, refused) ↦
              if_elim (Outcome m) (not grabbed)
                (λ _. inl (g, refused, ap (λ (n : Manager Grab). (false, n)) only1))
                (λ bad. absurd (ground arith))
          | inl (ok, taken) ↦
              if_elim (Outcome m) (not grabbed) (λ bad. absurd (ground arith))
                λ _. elim (lock_session_cases m1) [
                  | inr (fails, refused) ↦
                      let refused' =
                        subst (λ (n : Manager Grab). SessionRefused n l) only1 refused in
                      if_elim (Outcome m) (not locked)
                        (λ _. inr (
                          inl (g, l, taken, refused', ap (λ (n : Manager Grab). (false, n)) only2)))
                        (λ bad. absurd (ground arith))
                  | inl (ok', taken') ↦
                      let held = subst (λ (n : Manager Grab). SessionTaken n l) only1 taken' in
                      if_elim (Outcome m) (not locked) (λ bad. absurd (ground arith))
                        (λ _. inr (
                          inr (
                            g,
                            l,
                            taken,
                            held,
                            ap (λ (n : Manager Grab). (true, begin P n)) only2,
                          )))
                ]
        ]
