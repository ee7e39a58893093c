-- ===== src/ListenerWayland.antt =====
-- src/gs-listener-wayland.c: idleness on Wayland, by notifications of the compositor after the times
-- asked for. The compositor and the window that is active are parameters.
pub mod Alarms
use xfce4_screensaver.Base.{
  ℕ, ◌*◌, ◌%◌, ◌^◌, Bool, true, false, ◌&&◌, ◌||◌, not, Option, none, some, ◌==◌, if◌then◌else◌,
}
use xfce4_screensaver.Prefs.{Prefs}
use xfce4_screensaver.Listener.{Signal, lock, activate, poke}

pub data AlarmId : Type 0 where
  alarm_activate alarm_lock alarm_deactivate : AlarmId

-- _GSListenerWayland. The table of alarms has at most one for each identity, with its time in
-- milliseconds.
pub record ListenerWayland : Type 0 where
  pub has_notifier : Bool
  pub activate_alarm : Option ℕ
  pub lock_alarm : Option ℕ
  pub deactivate_alarm : Option ℕ
  pub enabled : Bool
  pub timeout : ℕ
  pub lock_timeout : ℕ

-- gs_listener_wayland_init, with whether the compositor has the protocol.
abbrev pub new : Bool → ListenerWayland
new has_notifier = record {
  has_notifier = has_notifier;
  activate_alarm = none;
  lock_alarm = none;
  deactivate_alarm = none;
  enabled = false;
  timeout = 0;
  lock_timeout = 0;
}

unfoldable pub alarm_add : AlarmId → ListenerWayland → ListenerWayland
alarm_add alarm_activate l = record l { activate_alarm = some l.timeout }
alarm_add alarm_lock l = record l { lock_alarm = some l.lock_timeout }
alarm_add alarm_deactivate l = record l { deactivate_alarm = some 0 }

unfoldable pub alarm_remove : AlarmId → ListenerWayland → ListenerWayland
alarm_remove alarm_activate l = record l { activate_alarm = none }
alarm_remove alarm_lock l = record l { lock_alarm = none }
alarm_remove alarm_deactivate l = record l { deactivate_alarm = none }

is_some : Option ℕ → Bool
is_some none = false
is_some (some _) = true

unfoldable pub alarm_is_active : AlarmId → ListenerWayland → Bool
unfolding is_some
alarm_is_active alarm_activate l = is_some l.activate_alarm
alarm_is_active alarm_lock l = is_some l.lock_alarm
alarm_is_active alarm_deactivate l = is_some l.deactivate_alarm

-- manager_activated up to the emission: the signal, and the listener. Without the protocol the
-- handlers of the manager's signals are not connected.
unfoldable pub activated_start : Prefs → ListenerWayland → Option Signal × ListenerWayland
unfolding alarm_add
activated_start p l =
    if not l.has_notifier
    then (none, l)
    else if not p.lock_with_saver_enabled
    then (none, l)
    else if l.lock_timeout == 0
    then (some lock, l)
    else (none, alarm_add alarm_lock l)

-- The end of manager_activated.
unfoldable pub activated_rest : ListenerWayland → ListenerWayland
unfolding alarm_add alarm_remove
activated_rest l =
    if not l.has_notifier then l else alarm_add alarm_deactivate (alarm_remove alarm_activate l)

unfoldable pub manager_deactivated : ListenerWayland → ListenerWayland
unfolding alarm_add alarm_remove
manager_deactivated l =
    let removed = alarm_remove alarm_lock (alarm_remove alarm_deactivate l) in
    if not l.has_notifier
    then l
    else if removed.enabled
    then alarm_add alarm_activate removed
    else removed

unfoldable pub set_timeouts : Prefs → Bool → ℕ → ℕ → ListenerWayland → ListenerWayland
unfolding alarm_add alarm_remove alarm_is_active
set_timeouts p enabled timeout lock_timeout l =
    let stored = record l {
      enabled = enabled;
      timeout = timeout * 1000 % 2 ^ 32;
      lock_timeout = lock_timeout * 1000 % 2 ^ 32;
    } in
    let kept = if p.lock_with_saver_enabled then stored else alarm_remove alarm_lock stored in
    if not l.has_notifier
    then l
    else if not enabled
    then alarm_remove alarm_lock (alarm_remove alarm_activate (record l { enabled = enabled }))
    else if alarm_is_active alarm_deactivate kept
    then kept
    else if not (kept.timeout == l.timeout) || not (alarm_is_active alarm_activate kept)
    then alarm_add alarm_activate kept
    else kept

-- notification_idled up to the emission; `fullscreen` is whether the active window is full-screen.
unfoldable pub idled_start :
    Prefs → Bool → AlarmId → ListenerWayland → Option Signal × ListenerWayland
unfolding alarm_add
idled_start p fullscreen alarm_activate l =
    if p.fullscreen_inhibit && fullscreen
    then (none, alarm_add alarm_activate l)
    else if p.lock_with_saver_enabled && l.lock_timeout == 0
    then (some lock, l)
    else (some activate, l)
idled_start p fullscreen alarm_lock l = (some lock, l)
idled_start p fullscreen alarm_deactivate l = (none, l)

-- The end of notification_idled.
unfoldable pub idled_rest : AlarmId → ListenerWayland → ListenerWayland
unfolding alarm_remove
idled_rest alarm_lock l = alarm_remove alarm_lock l
idled_rest _ l = l

-- notification_resumed: the user is active.
unfoldable pub resumed : Signal
resumed = poke
