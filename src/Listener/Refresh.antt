-- ===== src/Listener/Refresh.antt =====
-- The listener to idleness and its subclass follow the settings (src/gs-listener.c,
-- src/gs-listener-x11.c, src/gs-listener-wayland.c).
use xfce4_screensaver.Base.{
  ℕ, ◌≡◌, ◌*◌, ◌%◌, ◌^◌, Bool, true, false, arith, if_elim, refl, ◌⊎◌, inl, inr, some,
}
use mathlib.Core.Path.{subst}
use xfce4_screensaver.Prefs.{Prefs}
use xfce4_screensaver.Listener.{Listener, set_timeouts, wanted, update_needed}
use xfce4_screensaver.ListenerX11
use xfce4_screensaver.ListenerX11.{ListenerX11}
use xfce4_screensaver.ListenerWayland
use xfce4_screensaver.ListenerWayland.{ListenerWayland}

-- The listener has what the settings ask for.
settled : (p : Prefs) (l : Listener) → update_needed p l ≡ false → l ≡ wanted p
unfolding update_needed
settled p l e = ground arith

-- The X11 listener has the values of the base class, a timer is set, and the timeout is the one that the
-- X server was told last.
abbrev pub FollowsX11 : Listener × ListenerX11 → Type 0
FollowsX11 (l, x) =
    (x.enabled ≡ l.enabled)
    × (x.timeout ≡ l.timeout)
    × (x.lock_timeout ≡ l.lock_timeout)
    × (x.server ≡ some l.timeout)
    × ((seconds : ℕ) × (x.timer ≡ some seconds))

-- What is required while the listener is enabled.
abbrev pub Required : Bool → Type 0 → Type 0
Required true R = R
Required false R = Unit

required : {R : Type 0} (b : Bool) → (b ≡ true → R) → Required b R
required true h = h refl
required false h = tt

-- The Wayland listener has them in milliseconds, while it is enabled.
abbrev pub FollowsWayland : Listener × ListenerWayland → Type 0
FollowsWayland (l, x) =
    (x.enabled ≡ l.enabled)
    × Required l.enabled (x.timeout ≡ l.timeout * 1000 % 2 ^ 32)
    × Required l.enabled (x.lock_timeout ≡ l.lock_timeout * 1000 % 2 ^ 32)

x11_follows :
    (p : Prefs) (l : Listener) (x : ListenerX11)
    → (update_needed p l ≡ true) ⊎ FollowsX11 (l, x)
    → FollowsX11 (set_timeouts ListenerX11.set_timeouts p (l, x))
unfolding set_timeouts ListenerX11.set_timeouts ListenerX11.reset_timer
    ListenerX11.remove_lock_timer
x11_follows p l x h =
    if_elim (λ (r : ListenerX11). FollowsX11 (wanted p, r)) (update_needed p l)
      (λ _. (refl, refl, refl, refl, ((wanted p).timeout, refl)))
      λ e. elim h [
        | inl bad ↦ absurd (cc)
        | inr follows ↦ subst (λ (b : Listener). FollowsX11 (b, x)) (settled p l e) follows
      ]

x11_timer :
    (p : Prefs) (l : Listener) (x : ListenerX11)
    → Required
        (update_needed p l)
        ((set_timeouts ListenerX11.set_timeouts p (l, x)).1.timer ≡ some (wanted p).timeout)
unfolding set_timeouts ListenerX11.set_timeouts ListenerX11.reset_timer
    ListenerX11.remove_lock_timer
x11_timer p l x =
    let R = λ (r : ListenerX11). r.timer ≡ some (wanted p).timeout in
    required (update_needed p l) λ e. if_elim R (update_needed p l) (λ _. refl) (λ bad. absurd (cc))

wayland_set :
    (p : Prefs) (enabled : Bool) (timeout lock_timeout : ℕ) (x : ListenerWayland)
    → x.has_notifier ≡ true
    → ((ListenerWayland.set_timeouts p enabled timeout lock_timeout x).enabled ≡ enabled)
      × (enabled ≡ true
          → (ListenerWayland.set_timeouts p enabled timeout lock_timeout x).timeout
            ≡ timeout * 1000 % 2 ^ 32)
      × (enabled ≡ true
          → (ListenerWayland.set_timeouts p enabled timeout lock_timeout x).lock_timeout
            ≡ lock_timeout * 1000 % 2 ^ 32)
unfolding ListenerWayland.set_timeouts ListenerWayland.alarm_add ListenerWayland.alarm_remove
    ListenerWayland.alarm_is_active
wayland_set p enabled timeout lock_timeout x n = ground arith

wayland_follows :
    (p : Prefs) (l : Listener) (x : ListenerWayland)
    → x.has_notifier ≡ true
    → (update_needed p l ≡ true) ⊎ FollowsWayland (l, x)
    → FollowsWayland (set_timeouts (ListenerWayland.set_timeouts p) p (l, x))
unfolding set_timeouts
wayland_follows p l x n h =
    let w = wanted p in
    if_elim (λ (r : ListenerWayland). FollowsWayland (w, r)) (update_needed p l)
      (λ _.
        let (on, timeout, lock_timeout) = wayland_set p w.enabled w.timeout w.lock_timeout x n in
        (on, required w.enabled timeout, required w.enabled lock_timeout))
      λ e. elim h [
        | inl bad ↦ absurd (cc)
        | inr follows ↦ subst (λ (b : Listener). FollowsWayland (b, x)) (settled p l e) follows
      ]

-- After a change of the settings the base class has what they ask for, and a listener on X11, or on
-- Wayland where the compositor has the protocol, follows it, if it followed it before or the base
-- class had something else. Both are enabled or disabled with it and have its timeouts, on Wayland in
-- milliseconds and while it is enabled. On X11 its timeout is the one that the X server was told last,
-- and a timer is set, which starts with that timeout where the base class had something else.
pub set_timeouts-Follows :
    (p : Prefs) (l : Listener) (x : ListenerX11) (y : ListenerWayland)
    → y.has_notifier ≡ true
    → (update_needed p l ≡ true) ⊎ FollowsX11 (l, x)
    → (update_needed p l ≡ true) ⊎ FollowsWayland (l, y)
    → ((set_timeouts ListenerX11.set_timeouts p (l, x)).0 ≡ wanted p)
      × FollowsX11 (set_timeouts ListenerX11.set_timeouts p (l, x))
      × Required
          (update_needed p l)
          ((set_timeouts ListenerX11.set_timeouts p (l, x)).1.timer ≡ some (wanted p).timeout)
      × FollowsWayland (set_timeouts (ListenerWayland.set_timeouts p) p (l, y))
unfolding set_timeouts
set_timeouts-Follows p l x y n hx hy =
    (refl, x11_follows p l x hx, x11_timer p l x, wayland_follows p l y n hy)
