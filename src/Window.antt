-- ===== src/Window.antt =====
-- src/gs-window.c: one screen saver window, as far as its own state goes: its timers and idle
-- sources, the unlock dialog and keyboard that it runs as children, and the keys it queues. What
-- GTK draws is left out. The signals that a window emits are handled in Manager, so a function
-- that emits one says so in its result.
pub mod Dialog
pub mod Keys
pub mod Popdown
use xfce4_screensaver.Base.{
  ℕ, suc, ◌+◌, Bool, true, false, ◌&&◌, ◌||◌, not, Option, none, some, List, [], ◌∷◌, String, ltb,
  ◌==◌, length, if◌then◌else◌, ◌++◌,
}
use mathlib.Core.List.{reverse}
use xfce4_screensaver.Job.{Call, waited, kill, sigterm}

-- The response that the dialog gave.
pub data Response : Type 0 where
  cancel accept : Response

-- GSWindowPrivate, with the window's identity and the GTK state that the source asks for. An idle
-- source or a timer that has an id is `true`; a pid of 0 stands for no process. `calls` lists the
-- process calls made for this window, newest first, and `sent_keys` the keys passed on to the
-- dialog.
pub record Window : Type 0 where
  pub id : ℕ
  pub monitor : ℕ
  pub visible : Bool
  pub sensitive : Bool
  pub obscured : Bool
  pub dialog_up : Bool
  pub lock_active : Bool
  pub status_message : Option String
  pub lock_socket : Bool
  pub keyboard_socket : Bool
  pub popup_dialog_idle : Bool
  pub deactivated_idle : Bool
  pub watchdog_timer : Bool
  pub info_bar : Bool
  pub info_bar_timer : Bool
  pub lock_pid : ℕ
  pub lock_watch : Bool
  pub dialog_response : Response
  pub keyboard_pid : ℕ
  pub keyboard_watch : Bool
  pub key_events : List ℕ
  pub sent_keys : List ℕ
  pub calls : List Call

-- gs_window_new: a new object is zero, and its widget is sensitive and not shown.
unfoldable pub new : ℕ → ℕ → Window
new id monitor = record {
  id = id;
  monitor = monitor;
  visible = false;
  sensitive = true;
  obscured = false;
  dialog_up = false;
  lock_active = false;
  status_message = none;
  lock_socket = false;
  keyboard_socket = false;
  popup_dialog_idle = false;
  deactivated_idle = false;
  watchdog_timer = false;
  info_bar = false;
  info_bar_timer = false;
  lock_pid = 0;
  lock_watch = false;
  dialog_response = cancel;
  keyboard_pid = 0;
  keyboard_watch = false;
  key_events = [];
  sent_keys = [];
  calls = [];
}

unfoldable pub remove_watchdog_timer : Window → Window
remove_watchdog_timer w = record w { watchdog_timer = false }

unfoldable pub add_watchdog_timer : Window → Window
add_watchdog_timer w = record w { watchdog_timer = true }

unfoldable pub remove_popup_dialog_idle : Window → Window
remove_popup_dialog_idle w = record w { popup_dialog_idle = false }

unfoldable pub add_popup_dialog_idle : Window → Window
add_popup_dialog_idle w = record w { popup_dialog_idle = true }

-- A pending source is replaced.
unfoldable pub add_emit_deactivated_idle : Window → Window
add_emit_deactivated_idle w = record w { deactivated_idle = true }

unfoldable pub real_show : Window → Window
unfolding remove_watchdog_timer add_watchdog_timer
real_show w = add_watchdog_timer (remove_watchdog_timer (record w { visible = true }))

unfoldable pub real_hide : Window → Window
unfolding remove_watchdog_timer
real_hide w = record (remove_watchdog_timer w) { visible = false }

unfoldable pub show_message : Window → Window
show_message w = record w { info_bar = true; info_bar_timer = true }

unfoldable pub info_bar_timeout : Window → Window
info_bar_timeout w = record w { info_bar_timer = false; info_bar = false }

unfoldable pub set_status_message : Option String → Window → Window
set_status_message message w = record w { status_message = message }

unfoldable pub set_lock_active : Bool → Window → Window
set_lock_active true w = if w.lock_active then w else record w { lock_active = true }
set_lock_active false w = if w.lock_active then record w { lock_active = false } else w

-- The keys are queued newest first, and passed on oldest first.
unfoldable pub forward_key_events : Window → Window
forward_key_events w = record w { key_events = []; sent_keys = w.sent_keys ++ reverse w.key_events }

unfoldable pub remove_key_events : Window → Window
remove_key_events w = record w { key_events = [] }

-- MAX_QUEUED_EVENTS.
abbrev pub max_queued_events : ℕ
max_queued_events = 16

-- GDK's values of the keys that the source names.
abbrev key_return : ℕ
key_return = 0xff0d

abbrev key_kp_enter : ℕ
key_kp_enter = 0xff8d

abbrev key_escape : ℕ
key_escape = 0xff1b

abbrev key_space : ℕ
key_space = 0x020

abbrev pub key_tab : ℕ
key_tab = 0xff09

abbrev pub key_up : ℕ
key_up = 0xff52

abbrev pub key_down : ℕ
key_down = 0xff54

-- Whether a key asks for the dialog, and is eaten where it comes first.
unfoldable pub is_wakeup : ℕ → Bool
is_wakeup keyval =
    keyval == key_return || keyval == key_kp_enter || keyval == key_escape || keyval == key_space

unfoldable pub is_empty : List ℕ → Bool
is_empty [] = true
is_empty (_ ∷ _) = false

unfoldable pub queue_key_event : ℕ → Window → Window
unfolding is_wakeup is_empty
queue_key_event keyval w =
    if is_empty w.key_events && is_wakeup keyval
    then w
    else if ltb (length w.key_events) max_queued_events
        && not (keyval == key_tab)
        && not (keyval == key_up)
        && not (keyval == key_down)
    then record w { key_events = keyval ∷ w.key_events }
    else w

-- Whether "notify::obscured" is emitted, and the window.
unfoldable pub set_obscured : Bool → Window → Bool × Window
set_obscured true w = if w.obscured then (false, w) else (true, record w { obscured = true })
set_obscured false w = if w.obscured then (true, record w { obscured = false }) else (false, w)

-- window_set_dialog_up: whether "notify::dialog-up" is emitted, and the window.
unfoldable pub set_dialog_up : Bool → Window → Bool × Window
set_dialog_up true w = if w.dialog_up then (false, w) else (true, record w { dialog_up = true })
set_dialog_up false w = if w.dialog_up then (true, record w { dialog_up = false }) else (false, w)
