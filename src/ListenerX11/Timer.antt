-- ===== src/ListenerX11/Timer.antt =====
-- What the timer of the X11 listener and the events of the X server lead to
-- (src/gs-listener-x11.c).
use xfce4_screensaver.Base.{
  ℕ, ◌≡◌, ◌≤◌, ◌<◌, ◌-◌, Bool, true, false, ◌&&◌, not, Option, some, ltb, leb, if_elim,
  if◌then◌else◌, arith, refl, option_cases, OnSome, ◌⊎◌, inl, inr,
}
use xfce4_screensaver.Prefs.{Prefs}
use xfce4_screensaver.Listener.{lock, activate}
use xfce4_screensaver.ListenerX11.{
  ListenerX11, IdleInfo, SaverState, saver_off, saver_on, saver_cycle, saver_disabled, Tick, tick,
  lock_timer, lock_state, set_again, reset_timer, remove_lock_timer, is_on, is_disabled, idle_tick,
  tick_by_state,
}

-- What has to hold for the screen to be locked after a time of idleness.
abbrev pub MayLock : Prefs → Bool → IdleInfo → ListenerX11 → Type 0
MayLock p fullscreen i l =
    ((p.fullscreen_inhibit && fullscreen) ≡ false)
    × (p.lock_with_saver_enabled ≡ true)
    × (is_on i.state ≡ true)
    × (l.lock_timeout ≤ i.idle_time - l.timeout)

lock_state-true :
    (p : Prefs) (i : IdleInfo) (l : ListenerX11)
    → lock_state p i l ≡ true
    → (p.lock_with_saver_enabled ≡ true)
      × (is_on i.state ≡ true)
      × (l.lock_timeout ≤ i.idle_time - l.timeout)
unfolding lock_state
lock_state-true p i l h = ground arith

chosen : (b : Bool) → some (if b then lock else activate) ≡ some lock → b ≡ true
chosen true e = refl
chosen false e = absurd (cc)

by_state :
    (state : SaverState) (locks : Bool) (idle_time : ℕ) (l : ListenerX11)
    → (tick_by_state state locks idle_time l).signal ≡ some lock
    → locks ≡ true
unfolding tick_by_state set_again
by_state saver_off locks idle_time l e = absurd (cc)
by_state saver_on true idle_time l e = refl
by_state saver_on false idle_time l e = absurd (cc)
by_state saver_cycle locks idle_time l e = absurd (cc)
by_state saver_disabled locks idle_time l e = absurd (cc)

tick-lock :
    (p : Prefs) (fullscreen : Bool) (i : IdleInfo) (l : ListenerX11)
    → (tick p fullscreen i l).signal ≡ some lock
    → ((p.fullscreen_inhibit && fullscreen) ≡ false) × (lock_state p i l ≡ true)
unfolding tick set_again
tick-lock p fullscreen i l =
    let locks = lock_state p i l in
    let R = λ (t : Tick).
      t.signal ≡ some lock → ((p.fullscreen_inhibit && fullscreen) ≡ false) × (locks ≡ true) in
    if_elim R (p.fullscreen_inhibit && fullscreen) (λ _ bad. absurd (cc))
      λ f.
        if_elim R (leb l.timeout i.idle_time && not (is_disabled i.state))
          (λ _ e. (f, chosen locks e)) (λ _ e. (f, by_state i.state locks i.idle_time l e))

-- The timer of the X11 listener asks for the screen to be locked only while the listener is enabled
-- and the idle time is known, and then only if no full-screen window keeps the saver away, the
-- settings ask for a lock with the saver, the X server's saver is on, and the idle time that is
-- past the timeout has reached the time until the lock.
pub lock_timer-lock :
    (p : Prefs) (fullscreen : Bool) (info : Option IdleInfo) (l : ListenerX11)
    → (lock_timer p fullscreen info l).signal ≡ some lock
    → (l.enabled ≡ true) × ((i : IdleInfo) × (info ≡ some i) × MayLock p fullscreen i l)
unfolding lock_timer idle_tick
lock_timer-lock p fullscreen info l =
    let R = λ (t : Tick).
      t.signal ≡ some lock
      → (l.enabled ≡ true) × ((i : IdleInfo) × (info ≡ some i) × MayLock p fullscreen i l) in
    if_elim R (not l.enabled) (λ _ bad. absurd (cc))
      λ on.
        option_cases R info (λ _ bad. absurd (cc))
          λ i e given.
            let (f, locks) = tick-lock p fullscreen i l given in
            let (a, b, c) = lock_state-true p i l locks in
            let enabled : l.enabled ≡ true = ground arith in (enabled, (i, e, (f, a, b, c)))

-- A timer that runs within half a minute or the timeout, and not at once.
abbrev pub Soon : ℕ → Option ℕ → Type 0
Soon timeout timer =
    OnSome (λ seconds. (0 < seconds) × ((seconds ≤ 30) ⊎ (seconds ≤ timeout))) timer

-- A tick that does not keep the timer has set it again.
abbrev Again : ListenerX11 → Tick → Type 0
Again l t = t.keeps ≡ false → Soon l.timeout t.listener.timer

set_again-Soon : (idle_time : ℕ) (l : ListenerX11) → Again l (set_again idle_time l)
unfolding set_again reset_timer remove_lock_timer
set_again-Soon idle_time l _ =
    if_elim (λ s. (0 < s) × ((s ≤ 30) ⊎ (s ≤ l.timeout))) (ltb idle_time l.timeout)
      (λ e. (ground arith, inr (omega arith))) (λ _. (omega arith, inl (omega arith)))

by_state-Again :
    (state : SaverState) (locks : Bool) (idle_time : ℕ) (l : ListenerX11)
    → Again l (tick_by_state state locks idle_time l)
unfolding tick_by_state
by_state-Again saver_off locks idle_time l = set_again-Soon idle_time l
by_state-Again saver_on locks idle_time l = λ bad. absurd (cc)
by_state-Again saver_cycle locks idle_time l = λ bad. absurd (cc)
by_state-Again saver_disabled locks idle_time l = λ bad. absurd (cc)

-- When the timer's function does not run on, it has set the timer again: to at least a second, and
-- to at most half a minute or the timeout.
pub lock_timer-Soon :
    (p : Prefs) (fullscreen : Bool) (info : Option IdleInfo) (l : ListenerX11)
    → (lock_timer p fullscreen info l).keeps ≡ false
    → Soon l.timeout (lock_timer p fullscreen info l).listener.timer
unfolding lock_timer idle_tick tick
lock_timer-Soon p fullscreen info l =
    if_elim (Again l) (not l.enabled) (λ _ bad. absurd (cc))
      λ _.
        option_cases (Again l) info (λ _ bad. absurd (cc))
          λ i _.
            if_elim (Again l) (p.fullscreen_inhibit && fullscreen)
              (λ _. set_again-Soon i.idle_time l)
              λ _.
                if_elim (Again l) (leb l.timeout i.idle_time && not (is_disabled i.state))
                  (λ _ bad. absurd (cc))
                  (λ _. by_state-Again i.state (lock_state p i l) i.idle_time l)
