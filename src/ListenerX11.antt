-- ===== src/ListenerX11.antt =====
-- src/gs-listener-x11.c: idleness on X11, by the screen saver extension of the X server and a timer.
-- The idle time, the state of the extension and whether the active window is full-screen are
-- parameters.
pub mod Timer
use xfce4_screensaver.Base.{
  ℕ, ◌-◌, Bool, true, false, ◌&&◌, not, Option, none, some, ltb, leb, ◌==◌, if◌then◌else◌,
}
use xfce4_screensaver.Prefs.{Prefs}
use xfce4_screensaver.Listener.{Signal, lock, activate}

-- The states of the extension.
pub data SaverState : Type 0 where
  saver_off saver_on saver_cycle saver_disabled : SaverState

-- GSListenerX11Private. `timer` has the seconds of the lock timer, if there is one, and `server` the
-- timeout that the X server was told last.
pub record ListenerX11 : Type 0 where
  pub enabled : Bool
  pub timeout : ℕ
  pub lock_timeout : ℕ
  pub timer : Option ℕ
  pub server : Option ℕ

abbrev pub new : ListenerX11
new = record { enabled = false; timeout = 0; lock_timeout = 0; timer = none; server = none }

unfoldable pub remove_lock_timer : ListenerX11 → ListenerX11
remove_lock_timer l = record l { timer = none }

unfoldable pub reset_timer : ℕ → ListenerX11 → ListenerX11
unfolding remove_lock_timer
reset_timer timeout l = record (remove_lock_timer l) { timer = some timeout }

unfoldable pub set_timeouts : Bool → ℕ → ℕ → ListenerX11 → ListenerX11
unfolding reset_timer
set_timeouts enabled timeout lock_timeout l = reset_timer timeout (record l {
  enabled = enabled;
  timeout = timeout;
  lock_timeout = lock_timeout;
  server = some timeout;
})

-- What get_x11_idle_info finds: the idle time in seconds, and the state.
pub record IdleInfo : Type 0 where
  pub idle_time : ℕ
  pub state : SaverState

unfoldable pub is_on : SaverState → Bool
is_on saver_on = true
is_on _ = false

unfoldable pub is_disabled : SaverState → Bool
is_disabled saver_disabled = true
is_disabled _ = false

-- What the timer's function does: whether the timer runs on, the signal emitted, and the listener.
pub record Tick : Type 0 where
  pub keeps : Bool
  pub signal : Option Signal
  pub listener : ListenerX11

-- The timer is set again: to the time that is left, or to half a minute.
unfoldable pub set_again : ℕ → ListenerX11 → Tick
unfolding reset_timer
set_again idle_time l = record {
  keeps = false;
  signal = none;
  listener = reset_timer (if ltb idle_time l.timeout then l.timeout - idle_time else 30) l;
}

-- Whether the screen is to be locked.
unfoldable pub lock_state : Prefs → IdleInfo → ListenerX11 → Bool
unfolding is_on
lock_state p info l =
    is_on info.state
    && p.lock_with_saver_enabled
    && leb l.lock_timeout (if ltb l.timeout info.idle_time then info.idle_time - l.timeout else 0)

tick_by_state : SaverState → Bool → ℕ → ListenerX11 → Tick
unfolding set_again
tick_by_state saver_off locks idle_time l = set_again idle_time l
tick_by_state saver_on locks idle_time l = record {
  keeps = true;
  signal = if locks then some lock else none;
  listener = l;
}
tick_by_state _ locks idle_time l = record { keeps = true; signal = none; listener = l }

-- lock_timer, where the idle time can be asked for; `fullscreen` is whether the active window is
-- full-screen.
unfoldable pub tick : Prefs → Bool → IdleInfo → ListenerX11 → Tick
unfolding lock_state is_disabled set_again tick_by_state
tick p fullscreen info l =
    if p.fullscreen_inhibit && fullscreen
    then set_again info.idle_time l
    else if leb l.timeout info.idle_time && not (is_disabled info.state)
    then record {
      keeps = true;
      signal = some (if lock_state p info l then lock else activate);
      listener = l;
    }
    else tick_by_state info.state (lock_state p info l) info.idle_time l

idle_tick : ListenerX11 → Tick
idle_tick l = record { keeps = true; signal = none; listener = l }

unfoldable pub lock_timer : Prefs → Bool → Option IdleInfo → ListenerX11 → Tick
unfolding tick idle_tick
lock_timer p fullscreen info l =
    if not l.enabled
    then idle_tick l
    else elim info [ none ↦ idle_tick l | some i ↦ tick p fullscreen i l ]

notified : Prefs → Bool → SaverState → ListenerX11 → Option Signal × ListenerX11
unfolding reset_timer
notified p fullscreen saver_on l =
    if p.fullscreen_inhibit && fullscreen
    then (none, reset_timer l.timeout l)
    else if p.lock_enabled && p.lock_with_saver_enabled && l.lock_timeout == 0
    then (some lock, l)
    else (some activate, l)
notified p fullscreen saver_cycle l = (none, l)
notified p fullscreen _ l = (none, reset_timer l.timeout l)

-- xroot_filter on a ScreenSaverNotify event.
unfoldable pub xroot_filter : Prefs → Bool → SaverState → ListenerX11 → Option Signal × ListenerX11
unfolding notified
xroot_filter p fullscreen state l =
    if not l.enabled then (none, l) else notified p fullscreen state l
