-- ===== src/Manager/Locker.antt =====
-- src/gs-manager.c: the lock flag, the timers, the throttle, the theme cycle and the status message.
use xfce4_screensaver.Base.{
  ℕ, ◌*◌, ◌%◌, ◌^◌, Bool, true, false, ◌||◌, not, Option, none, some, map, ◌++◌, String, ◌==◌,
  if◌then◌else◌,
}
use xfce4_screensaver.Manager.{Manager, Platform}
use xfce4_screensaver.Manager.Jobs.{throttle_job, for_jobs, cycle_jobs, remove_jobs}
use xfce4_screensaver.Window

unfoldable pub eqb : Bool → Bool → Bool
eqb true b = b
eqb false b = not b

unfoldable pub enable_locker : {Grab : Type 0} → Bool → Manager Grab → Manager Grab
enable_locker on m = record m {
  lock_active = on;
  windows = map (Window.set_lock_active on) m.windows;
}

-- activate_lock_timeout, when the timer runs out.
unfoldable pub activate_lock_timeout : {Grab : Type 0} → Manager Grab → Manager Grab
unfolding enable_locker
activate_lock_timeout m = record (enable_locker true m) { lock_timer = none }

unfoldable pub remove_lock_timer : {Grab : Type 0} → Manager Grab → Manager Grab
remove_lock_timer m = record m { lock_timer = none }

-- The settings keep the time in minutes; the timer runs in seconds, a `guint`.
unfoldable pub add_lock_timer : {Grab : Type 0} → ℕ → Manager Grab → Manager Grab
unfolding enable_locker
add_lock_timer minutes m =
    if not m.prefs.lock_enabled
    then m
    else if not m.prefs.lock_with_saver_enabled
    then m
    else if m.lock_active
    then m
    else if minutes == 0
    then enable_locker true m
    else record m { lock_timer = some (minutes * 60 % 2 ^ 32) }

unfoldable pub remove_cycle_timer : {Grab : Type 0} → Manager Grab → Manager Grab
remove_cycle_timer m = record m { cycle_timer = none }

unfoldable pub add_cycle_timer : {Grab : Type 0} → ℕ → Manager Grab → Manager Grab
add_cycle_timer seconds m = record m { cycle_timer = some seconds }

unfoldable pub remove_timers : {Grab : Type 0} → Manager Grab → Manager Grab
unfolding remove_lock_timer remove_cycle_timer
remove_timers m = remove_cycle_timer (remove_lock_timer m)

unfoldable pub set_status_message : {Grab : Type 0} → Option String → Manager Grab → Manager Grab
set_status_message message m = record m {
  status_message = message;
  windows = map (Window.set_status_message message) m.windows;
}

module _ {Grab : Type 0} (P : Platform Grab) where
  unfoldable pub set_throttled : Bool → Manager Grab → Manager Grab
  unfolding eqb
  set_throttled on m =
      let changed = record m { throttled = on } in
      if eqb m.throttled on
      then m
      else if m.dialog_up
      then changed
      else record changed { jobs = for_jobs (throttle_job P changed) m.jobs }

  -- Whether the themes were changed, and the manager.
  unfoldable pub cycle : Manager Grab → Bool × Manager Grab
  cycle m = if not m.active || m.dialog_up || m.throttled then (false, m) else (
    true,
    record m { jobs = cycle_jobs P m m.jobs; reaped = remove_jobs m.jobs ++ m.reaped },
  )

  -- cycle_timeout keeps its timer.
  unfoldable pub cycle_timeout : Manager Grab → Manager Grab
  unfolding cycle
  cycle_timeout m = if m.dialog_up then m else (cycle m).1
