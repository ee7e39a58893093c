-- ===== src/ListenerWayland/Alarms.antt =====
-- The alarms of the Wayland listener in every order of events (src/gs-listener-wayland.c).
use xfce4_screensaver.Base.{
  ℕ, ◌≡◌, ◌*◌, ◌%◌, ◌^◌, Bool, true, false, ◌&&◌, ◌||◌, not, Option, none, some, List, [], ◌∷◌,
  if_elim, if◌then◌else◌, ◌==◌, arith, refl, ◌∙◌, sym,
}
use xfce4_screensaver.Prefs.{Prefs}
use xfce4_screensaver.Listener.{Signal}
use xfce4_screensaver.ListenerWayland.{
  ListenerWayland, AlarmId, alarm_activate, alarm_lock, alarm_deactivate, alarm_add, alarm_remove,
  alarm_is_active, is_some, activated_start, activated_rest, manager_deactivated, set_timeouts,
  idled_start, idled_rest,
}

-- What happens to the listener: the manager's signals, the settings, and the compositor's
-- notifications, which come for alarms that are set.
pub data AlarmEvent : Type 0 where
  activated : Prefs → AlarmEvent
  deactivated : AlarmEvent
  timeouts : Prefs → Bool → ℕ → ℕ → AlarmEvent
  idled : Prefs → Bool → AlarmId → AlarmEvent

unfoldable pub handle : AlarmEvent → ListenerWayland → ListenerWayland
unfolding activated_start activated_rest manager_deactivated set_timeouts idled_start idled_rest
    alarm_is_active
handle (activated p) l = activated_rest (activated_start p l).1
handle deactivated l = manager_deactivated l
handle (timeouts p enabled timeout lock_timeout) l = set_timeouts p enabled timeout lock_timeout l
handle (idled p fullscreen id) l =
    if not (alarm_is_active id l) then l else idled_rest id (idled_start p fullscreen id l).1

unfoldable pub handle_all : List AlarmEvent → ListenerWayland → ListenerWayland
unfolding handle
handle_all [] l = l
handle_all (e ∷ es) l = handle_all es (handle e l)

-- The alarm for the activation is set only while the listener is enabled and no alarm for the
-- deactivation is set, and it has the timeout.
abbrev pub AlarmsOk : Bool → ℕ → Option ℕ → Option ℕ → Type 0
AlarmsOk enabled timeout none off = Unit
AlarmsOk enabled timeout (some t) off = (enabled ≡ true) × (off ≡ none) × (t ≡ timeout)

abbrev pub IsCoherent : ListenerWayland → Type 0
IsCoherent l = AlarmsOk l.enabled l.timeout l.activate_alarm l.deactivate_alarm

activated_start-IsCoherent :
    (p : Prefs) (l : ListenerWayland) → IsCoherent l → IsCoherent (activated_start p l).1
unfolding activated_start alarm_add
activated_start-IsCoherent p l h =
    let R = λ (r : Option Signal × ListenerWayland). IsCoherent r.1 in
    if_elim R (not l.has_notifier) (λ _. h)
      λ _.
        if_elim R (not p.lock_with_saver_enabled) (λ _. h)
          λ _. if_elim R (l.lock_timeout == 0) (λ _. h) (λ _. h)

activated_rest-IsCoherent : (l : ListenerWayland) → IsCoherent l → IsCoherent (activated_rest l)
unfolding activated_rest alarm_add alarm_remove
activated_rest-IsCoherent l h = if_elim IsCoherent (not l.has_notifier) (λ _. h) (λ _. tt)

-- The alarm for the activation is out of force in each of these cases, or is as it was.
AlarmsOk-off :
    (e e' : Bool) (t t' : ℕ) (on off : Option ℕ)
    → is_some off ≡ true
    → AlarmsOk e t on off
    → AlarmsOk e' t' on off
unfolding is_some
AlarmsOk-off e e' t t' none off d h = tt
AlarmsOk-off e e' t t' (some x) none d h = absurd (cc)
AlarmsOk-off e e' t t' (some x) (some y) d h = absurd (let bad = h.1 in cc)

AlarmsOk-same :
    (e e' : Bool) (t t' : ℕ) (on off : Option ℕ)
    → e' ≡ true
    → t' ≡ t
    → AlarmsOk e t on off
    → AlarmsOk e' t' on off
AlarmsOk-same e e' t t' none off on_e same h = tt
AlarmsOk-same e e' t t' (some x) off on_e same h = (on_e, h.1, h.2 ∙ sym same)

AlarmsOk-removed :
    (e : Bool) (t : ℕ) (on off : Option ℕ) → AlarmsOk e t on off → AlarmsOk e t on none
AlarmsOk-removed e t none off h = tt
AlarmsOk-removed e t (some x) off h = (h.0, refl, h.2)

AlarmsOk-again :
    (e : Bool) (t : ℕ) (on off : Option ℕ)
    → is_some on ≡ true
    → AlarmsOk e t on off
    → AlarmsOk e t (some t) off
unfolding is_some
AlarmsOk-again e t none off active h = absurd (cc)
AlarmsOk-again e t (some x) off active h = (h.0, h.1, refl)

is_some-false : (o : Option ℕ) → is_some o ≡ false → o ≡ none
unfolding is_some
is_some-false none e = refl
is_some-false (some x) e = absurd (cc)

deactivated-IsCoherent : (l : ListenerWayland) → IsCoherent l → IsCoherent (manager_deactivated l)
unfolding manager_deactivated alarm_add alarm_remove
deactivated-IsCoherent l h =
    if_elim IsCoherent (not l.has_notifier) (λ _. h)
      λ _.
        if_elim IsCoherent l.enabled (λ on. (on, refl, refl))
          (λ _. AlarmsOk-removed l.enabled l.timeout l.activate_alarm l.deactivate_alarm h)

-- The end of set_timeouts.
again : ListenerWayland → ListenerWayland → ListenerWayland
unfolding alarm_is_active alarm_add
again l kept =
    if alarm_is_active alarm_deactivate kept
    then kept
    else if not (kept.timeout == l.timeout) || not (alarm_is_active alarm_activate kept)
    then alarm_add alarm_activate kept
    else kept

again-IsCoherent :
    (l kept : ListenerWayland)
    → kept.enabled ≡ true
    → AlarmsOk l.enabled l.timeout kept.activate_alarm kept.deactivate_alarm
    → IsCoherent (again l kept)
unfolding again alarm_add alarm_is_active
again-IsCoherent l kept on h =
    let a = kept.activate_alarm in
    let off = kept.deactivate_alarm in
    if_elim IsCoherent (is_some off)
      (λ d. AlarmsOk-off l.enabled kept.enabled l.timeout kept.timeout a off d h)
      λ d.
        if_elim IsCoherent (not (kept.timeout == l.timeout) || not (is_some a))
          (λ _. (on, is_some-false off d, refl))
          (λ e.
            let same : kept.timeout ≡ l.timeout = ground arith in
            AlarmsOk-same l.enabled kept.enabled l.timeout kept.timeout a off on same h)

set_timeouts-IsCoherent :
    (p : Prefs) (enabled : Bool) (timeout lock_timeout : ℕ) (l : ListenerWayland)
    → IsCoherent l
    → IsCoherent (set_timeouts p enabled timeout lock_timeout l)
unfolding set_timeouts alarm_remove again
set_timeouts-IsCoherent p enabled timeout lock_timeout l h =
    let stored = record l {
      enabled = enabled;
      timeout = timeout * 1000 % 2 ^ 32;
      lock_timeout = lock_timeout * 1000 % 2 ^ 32;
    } in
    if_elim IsCoherent (not l.has_notifier) (λ _. h)
      λ _.
        if_elim IsCoherent (not enabled) (λ _. tt)
          λ on.
            let enabled_on : enabled ≡ true = ground arith in
            if_elim (λ (k : ListenerWayland). IsCoherent (again l k)) p.lock_with_saver_enabled
              (λ _. again-IsCoherent l stored enabled_on h)
              (λ _. again-IsCoherent l (alarm_remove alarm_lock stored) enabled_on h)

idled-IsCoherent :
    (p : Prefs) (fullscreen : Bool) (id : AlarmId) (l : ListenerWayland)
    → alarm_is_active id l ≡ true
    → IsCoherent l
    → IsCoherent (idled_rest id (idled_start p fullscreen id l).1)
unfolding idled_rest idled_start alarm_add alarm_remove alarm_is_active
idled-IsCoherent p fullscreen alarm_activate l active h =
    if_elim (λ (r : Option Signal × ListenerWayland). IsCoherent r.1)
      (p.fullscreen_inhibit && fullscreen)
      (λ _. AlarmsOk-again l.enabled l.timeout l.activate_alarm l.deactivate_alarm active h)
      λ _.
        if_elim (λ (r : Option Signal × ListenerWayland). IsCoherent r.1)
          (p.lock_with_saver_enabled && l.lock_timeout == 0) (λ _. h) (λ _. h)
idled-IsCoherent p fullscreen alarm_lock l active h = h
idled-IsCoherent p fullscreen alarm_deactivate l active h = h

handle-IsCoherent : (e : AlarmEvent) (l : ListenerWayland) → IsCoherent l → IsCoherent (handle e l)
unfolding handle
handle-IsCoherent (activated p) l h =
    activated_rest-IsCoherent (activated_start p l).1 (activated_start-IsCoherent p l h)
handle-IsCoherent deactivated l h = deactivated-IsCoherent l h
handle-IsCoherent (timeouts p enabled timeout lock_timeout) l h =
    set_timeouts-IsCoherent p enabled timeout lock_timeout l h
handle-IsCoherent (idled p fullscreen id) l h =
    if_elim IsCoherent (not (alarm_is_active id l)) (λ _. h)
      (λ e. idled-IsCoherent p fullscreen id l (ground arith) h)

-- Whatever happens to the Wayland listener, in any order and any number of times, its alarm for the
-- activation is set only while the listener is enabled and no alarm for the deactivation is set, and
-- then for the timeout that the listener has.
pub handle_all-IsCoherent :
    (es : List AlarmEvent) (l : ListenerWayland) → IsCoherent l → IsCoherent (handle_all es l)
unfolding handle_all
handle_all-IsCoherent [] l h = h
handle_all-IsCoherent (e ∷ es) l h = handle_all-IsCoherent es (handle e l) (handle-IsCoherent e l h)
