-- ===== src/Examples/Listeners.antt =====
-- The theorems on the daemon and its listeners (src/gs-monitor.c, src/gs-listener-dbus.c,
-- src/gs-listener.c, src/gs-listener-x11.c, src/gs-listener-wayland.c) at concrete ones.
use xfce4_screensaver.Base.{ℕ, ◌≡◌, ◌&&◌, true, false, none, some, List, [], ◌∷◌, arith, refl, inl}
use xfce4_screensaver.Base.Int.{pos}
use xfce4_screensaver.Listener
use xfce4_screensaver.Listener.{wanted, update_needed, lock}
use xfce4_screensaver.Listener.Refresh.{FollowsX11, FollowsWayland, Required, set_timeouts-Follows}
use xfce4_screensaver.ListenerX11
use xfce4_screensaver.ListenerX11.{
  ListenerX11, IdleInfo, saver_on, lock_timer, tick, lock_state, is_on, is_disabled,
}
use xfce4_screensaver.ListenerX11.Timer.{MayLock, lock_timer-lock}
use xfce4_screensaver.ListenerWayland
use xfce4_screensaver.ListenerWayland.{ListenerWayland, alarm_activate, alarm_lock}
use xfce4_screensaver.ListenerWayland.Alarms.{
  AlarmEvent, activated, deactivated, timeouts, idled, handle_all, IsCoherent,
  handle_all-IsCoherent,
}
use xfce4_screensaver.ListenerDbus.{World, ListenerDbus, RefEntry, inhibit}
use xfce4_screensaver.ListenerDbus.Activation.{
  activate_saver, is_inhibited, is_present, listener_ref_entry_is_present, get_hash_for_entry_type,
}
use xfce4_screensaver.ListenerDbus.Refs.{lookup, generate_unique_key, service_deleted, is_none}
use xfce4_screensaver.ListenerDbus.Messages.{
  Message, string_arg, uint_arg, bool_arg, cookie_reply, add_entry_call, remove_entry_call,
  one_uint, one_bool, two_strings, is_method_call, is_interface, service,
}
use xfce4_screensaver.ListenerDbus.Logind.{is_signal}
use xfce4_screensaver.ListenerDbus.Tables.{IsWellFormed}
use xfce4_screensaver.ListenerDbus.Tables.Keys.{generate_unique_key-ends, is_drawn}
use xfce4_screensaver.ListenerDbus.Tables.Client.{keep, service_deleted-lookup, SameLists}
use xfce4_screensaver.ListenerDbus.Tables.TakenBack.{remove_entry_call-add_entry_call}
use xfce4_screensaver.Manager.Step.{monitors_changed}
use xfce4_screensaver.Grab.Seat.{Grab}
use xfce4_screensaver.Monitor.{
  Daemon, wayland, DaemonEvent, manager_event, session_message, system_message, alarm_idled,
  alarm_resumed, settings_changed, time_passes, run, handlers, activator, alarm_step,
}
use xfce4_screensaver.Monitor.Fuel.{activate_saver-activator}
use xfce4_screensaver.Monitor.Agreement.{InStep}
use xfce4_screensaver.Monitor.Agreement.Run.{run-InStep}
use xfce4_screensaver.Monitor.Inhibited.{Unchanged, run-inhibited}
use xfce4_screensaver.Monitor.Lock.{LockedDaemon}
use xfce4_screensaver.Monitor.Lock.Run.{run-LockedDaemon, asks_off}
use xfce4_screensaver.Monitor.Unlockable.{alarm_step_ignored}
use xfce4_screensaver.Monitor.Tables.{handlers-KeepsTables, run-IsWellFormed}
use xfce4_screensaver.Examples.{platform, prefs, resting, asking, display}

abbrev entry : RefEntry
entry = record {
  entry_type = inhibit;
  application = "player";
  reason = "film";
  connection = some ":1.7";
  cookie = 12;
  fd = pos 0;
  since = "now";
}

abbrev other_entry : RefEntry
other_entry = record entry { connection = some ":1.9"; cookie = 14 }

abbrev listener : ListenerDbus
listener = record {
  connection = true;
  system_connection = true;
  session_idle = false;
  active = false;
  throttled = false;
  inhibitors = entry ∷ other_entry ∷ [];
  throttlers = [];
  active_start = 0;
  session_id = some "2";
  session_path = some "/session/2";
  have_logind = true;
  sleep_inhibitor = pos 5;
  changes = [];
  closed = [];
}

abbrev on_wayland_now : ListenerWayland
on_wayland_now = record {
  has_notifier = true;
  activate_alarm = some 300000;
  lock_alarm = none;
  deactivate_alarm = none;
  enabled = true;
  timeout = 300000;
  lock_timeout = 0;
}

-- A daemon whose screen saver rests, with two inhibitors.
abbrev pub quiet : World (Daemon Grab)
quiet = record {
  listener = listener;
  rest = record {
    manager = resting;
    base = Listener.new;
    idle = wayland on_wayland_now;
    clock = 100;
    quitting = false;
  };
}

-- A daemon whose screen is locked.
abbrev pub locked : World (Daemon Grab)
locked = record {
  listener = record listener { active = true };
  rest = record quiet.rest { manager = asking };
}

abbrev call : Message
call = record {
  is_signal = false;
  path = some "/";
  interface = some "org.xfce.ScreenSaver";
  member = "Inhibit";
  sender = some ":1.8";
  args = string_arg "player" ∷ string_arg "film" ∷ [];
  draws = 12 ∷ 13 ∷ [];
  answer = some 6;
  now = "now";
}

abbrev take_back : Message
take_back = record call { member = "UnInhibit"; args = uint_arg 13 ∷ [] }

abbrev set_active : Message
set_active = record call { member = "SetActive"; args = bool_arg true ∷ [] }

-- The session of logind is asked for a lock.
abbrev lock_signal : Message
lock_signal = record call {
  is_signal = true;
  path = some "/session/2";
  interface = some "org.freedesktop.login1.Session";
  member = "Lock";
  args = [];
}

abbrev events : List DaemonEvent
events =
    session_message set_active
    ∷ system_message none true lock_signal
    ∷ alarm_idled alarm_activate false
    ∷ manager_event (monitors_changed display)
    ∷ alarm_resumed
    ∷ time_passes 160
    ∷ []

asking-IsLocked : LockedDaemon locked
asking-IsLocked = ground arith

kept_quit : is_method_call service "Quit" set_active ≡ false
unfolding is_method_call is_interface
kept_quit = refl

kept_active : (is_method_call service "SetActive" set_active && asks_off set_active) ≡ false
unfolding is_method_call is_interface asks_off one_bool
kept_active = refl

kept_unlock : is_signal "org.freedesktop.login1.Session" "Unlock" lock_signal ≡ false
unfolding is_signal
kept_unlock = refl

run-LockedDaemon_example : LockedDaemon (run platform events locked)
run-LockedDaemon_example =
    run-LockedDaemon platform events locked
      ((kept_quit, kept_active), (kept_unlock, (tt, (tt, (tt, (tt, tt)))))) asking-IsLocked

run-InStep_example : InStep (run platform events quiet)
run-InStep_example = run-InStep platform events quiet (tt, (tt, (tt, (tt, (tt, (tt, tt)))))) refl

quiet-IsWellFormed : IsWellFormed quiet.listener
unfolding is_present
quiet-IsWellFormed = record {
  inhibitors_ok = (((refl, tt), (tt, tt)), (refl, (refl, tt)));
  throttlers_ok = (tt, tt);
  flag = refl;
}

run-IsWellFormed_example :
    IsWellFormed
      (run platform (session_message call ∷ session_message take_back ∷ []) quiet).listener
run-IsWellFormed_example =
    run-IsWellFormed platform (session_message call ∷ session_message take_back ∷ []) quiet
      quiet-IsWellFormed

activate_saver-activator_example :
    activate_saver (activator platform 5) true quiet
    ≡ activate_saver (activator platform 1) true quiet
activate_saver-activator_example = activate_saver-activator platform 4 true quiet

inhibited : is_inhibited quiet.listener ≡ true
unfolding is_inhibited listener_ref_entry_is_present get_hash_for_entry_type is_present
inhibited = refl

abbrev idleness : List DaemonEvent
idleness =
    alarm_idled alarm_activate false
    ∷ alarm_idled alarm_lock false
    ∷ alarm_resumed
    ∷ settings_changed prefs
    ∷ []

run-inhibited_example : Unchanged platform quiet (run platform idleness quiet)
run-inhibited_example = run-inhibited platform idleness quiet (tt, (tt, (tt, (tt, tt)))) inhibited

answered : (add_entry_call (handlers platform) inhibit call quiet).0 ≡ cookie_reply 13
unfolding add_entry_call generate_unique_key lookup is_none two_strings get_hash_for_entry_type
answered = refl

given_back : one_uint take_back.args ≡ some 13
unfolding one_uint
given_back = refl

remove_entry_call-add_entry_call_example :
    SameLists quiet.listener
      (remove_entry_call
        (handlers platform)
        inhibit
        take_back
        (add_entry_call (handlers platform) inhibit call quiet).1).1.listener
remove_entry_call-add_entry_call_example =
    remove_entry_call-add_entry_call (handlers platform) (handlers-KeepsTables platform) inhibit
      call take_back 13 quiet answered given_back

service_deleted-lookup_example :
    lookup 12
      (get_hash_for_entry_type inhibit (service_deleted (handlers platform) ":1.7" quiet).listener)
    ≡ keep ":1.7" (lookup 12 (get_hash_for_entry_type inhibit quiet.listener))
service_deleted-lookup_example =
    service_deleted-lookup (handlers platform) (handlers-KeepsTables platform) ":1.7" quiet
      quiet-IsWellFormed inhibit 12

generate_unique_key-ends_example :
    (cookie : ℕ) × (generate_unique_key (12 ∷ 14 ∷ 15 ∷ []) (entry ∷ other_entry ∷ [])
      ≡ some cookie)
    × (lookup cookie (entry ∷ other_entry ∷ []) ≡ none)
    × (is_drawn cookie (12 ∷ 14 ∷ 15 ∷ []) ≡ true)
generate_unique_key-ends_example =
    generate_unique_key-ends (12 ∷ 14 ∷ 15 ∷ []) (entry ∷ other_entry ∷ [])
      ((refl, (refl, tt)), ((refl, tt), (tt, tt))) (omega arith)

-- A listener on X11 after five minutes without a lock of its own.
abbrev on_x11 : ListenerX11
on_x11 = record {
  enabled = true;
  timeout = 300;
  lock_timeout = 0;
  timer = some 300;
  server = some 300;
}

abbrev idle_now : IdleInfo
idle_now = record { idle_time = 301; state = saver_on }

abbrev idle_soon : IdleInfo
idle_soon = record { idle_time = 290; state = saver_on }

locks : (lock_timer prefs false (some idle_now) on_x11).signal ≡ some lock
unfolding lock_timer tick lock_state is_on is_disabled
locks = refl

lock_timer-lock_example :
    (on_x11.enabled ≡ true)
    × ((i : IdleInfo) × (some idle_now ≡ some i) × MayLock prefs false i on_x11)
lock_timer-lock_example = lock_timer-lock prefs false (some idle_now) on_x11 locks

again : (lock_timer prefs true (some idle_soon) on_x11).keeps ≡ false
unfolding lock_timer tick ListenerX11.set_again
again = refl

abbrev alarm_events : List AlarmEvent
alarm_events =
    idled prefs true alarm_activate
    ∷ activated prefs
    ∷ timeouts prefs true 600 60
    ∷ deactivated
    ∷ []

handle_all-IsCoherent_example : IsCoherent (handle_all alarm_events on_wayland_now)
handle_all-IsCoherent_example = handle_all-IsCoherent alarm_events on_wayland_now (refl, refl, refl)

new_needs_update : update_needed prefs Listener.new ≡ true
unfolding update_needed wanted
new_needs_update = refl

set_timeouts-Follows_example :
    ((Listener.set_timeouts ListenerX11.set_timeouts prefs (Listener.new, ListenerX11.new)).0
      ≡ wanted prefs)
    × FollowsX11
        (Listener.set_timeouts ListenerX11.set_timeouts prefs (Listener.new, ListenerX11.new))
    × Required (update_needed prefs Listener.new) (
        (Listener.set_timeouts ListenerX11.set_timeouts prefs
          (Listener.new, ListenerX11.new)).1.timer
        ≡ some (wanted prefs).timeout)
    × FollowsWayland (
        Listener.set_timeouts
          (ListenerWayland.set_timeouts prefs)
          prefs
          (Listener.new, ListenerWayland.new true))
set_timeouts-Follows_example =
    set_timeouts-Follows prefs Listener.new ListenerX11.new (ListenerWayland.new true) refl
      (inl new_needs_update) (inl new_needs_update)

-- The quiet daemon with locking turned off.
abbrev lockless : World (Daemon Grab)
lockless = record quiet {
  rest = record quiet.rest {
    manager = record resting { prefs = record prefs { lock_enabled = false } };
  };
}

alarm_step_ignored_example : alarm_step platform alarm_activate false lockless ≡ lockless
alarm_step_ignored_example =
    alarm_step_ignored platform false on_wayland_now lockless refl refl refl refl
