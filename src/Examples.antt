-- ===== src/Examples.antt =====
-- Concrete settings, jobs, windows and managers (src/gs-prefs.c, src/gs-job.c, src/gs-window.c,
-- src/gs-manager.c), at which the children apply the theorems.
pub mod Settings
pub mod Jobs
pub mod Managers
pub mod Listeners
pub mod Dialog
pub mod Plug
pub mod Unlock
pub mod Commands
use xfce4_screensaver.Base.{
  ℕ, Bool, true, false, Option, none, some, List, [], ◌∷◌, String, str_eq, if◌then◌else◌,
}
use xfce4_screensaver.Base.Int.{ℤ, pos, negsuc}
use xfce4_screensaver.Prefs.{Prefs}
use xfce4_screensaver.Prefs.Keys.{Channel, key_mode}
use xfce4_screensaver.Job.{Job, Env, running, stopped, spawned, kill, sigstop}
use xfce4_screensaver.Window.{Window, cancel}
use xfce4_screensaver.Grab.Seat.{Grab, ops, already_grabbed}
use xfce4_screensaver.Manager.{Manager, Platform, Display}

abbrev pub channel : Channel
channel = record {
  get_bool = λ property fallback. fallback;
  get_int = λ property fallback. fallback;
  get_string = λ property fallback. some fallback;
  get_string_list = λ property. some ("floaters" ∷ "popsquares" ∷ []);
}

-- The channel with another mode.
abbrev pub random_channel : Channel
random_channel = record channel {
  get_int = λ property fallback. if str_eq key_mode property then pos 1 else fallback;
}

abbrev pub prefs : Prefs
prefs = record {
  saver_enabled = true;
  lock_enabled = true;
  idle_activation_enabled = true;
  sleep_activation_enabled = true;
  lock_with_saver_enabled = true;
  logout_enabled = true;
  user_switch_enabled = false;
  keyboard_enabled = false;
  keyboard_displayed = false;
  status_message_enabled = true;
  timeout = 5;
  lock_timeout = 0;
  logout_timeout = 60000;
  cycle = 600;
  fullscreen_inhibit = true;
  logout_command = some "logout";
  keyboard_command = none;
  themes = "floaters" ∷ "popsquares" ∷ [];
  mode = pos 1;
}

abbrev pub job_env : Env
job_env = record {
  spawn = λ widget command. some 7;
  watch = λ pid. 3;
  libexecdir = "/usr/libexec";
  theme = some "floaters";
  theme_command = λ theme. some "/usr/libexec/xfce4-screensaver/floaters";
}

abbrev pub halted_job : Job
halted_job = record {
  widget = some 0;
  status = stopped;
  pid = 7;
  watch_id = 3;
  command = some "floaters";
  calls = kill 7 sigstop ∷ spawned 7 ∷ [];
}

abbrev pub running_job : Job
running_job = record {
  widget = some 0;
  status = running;
  pid = 7;
  watch_id = 3;
  command = some "floaters";
  calls = spawned 7 ∷ [];
}

-- A window that is shown and locked, and whose dialog runs.
abbrev pub window : Window
window = record {
  id = 0;
  monitor = 4;
  visible = true;
  sensitive = true;
  obscured = false;
  dialog_up = true;
  lock_active = true;
  status_message = none;
  lock_socket = true;
  keyboard_socket = false;
  popup_dialog_idle = false;
  deactivated_idle = false;
  watchdog_timer = true;
  info_bar = false;
  info_bar_timer = false;
  lock_pid = 9;
  lock_watch = true;
  dialog_response = cancel;
  keyboard_pid = 0;
  keyboard_watch = false;
  key_events = 97 ∷ [];
  sent_keys = [];
  calls = [];
}

-- A grab over a server that refuses the first attempt.
abbrev pub grab : Grab
grab = record {
  grab_window = none;
  no_pointer_grab = false;
  pointer_grabbed = false;
  answers = already_grabbed ∷ [];
}

abbrev pub platform : Platform Grab
platform = record {
  grabs = ops;
  job_env = job_env;
  spawn_dialog = λ options. some 9;
  spawn_keyboard = λ command. none;
  elapsed = λ x. 0;
  lock_events = [];
  scan_window_id = λ text. none;
}

-- A platform where no dialog can be started.
abbrev pub bare_platform : Platform Grab
bare_platform = record platform { spawn_dialog = λ options. none }

abbrev pub display : Display
display = record {
  wayland = false;
  monitors = 4 ∷ 5 ∷ [];
  pointer_monitor = 4;
  is_active = λ id. true;
}

abbrev pub resting : Manager Grab
resting = record {
  prefs = prefs;
  display = display;
  throttled = false;
  status_message = none;
  active = false;
  lock_active = false;
  dialog_up = false;
  lock_timer = none;
  cycle_timer = none;
  windows = [];
  jobs = [];
  grab = some grab;
  overlay_shown = false;
  lock_manager = none;
  compositor = false;
  watches_monitors = false;
  deactivate_idles = 0;
  next_id = 0;
  emitted = [];
  reaped = [];
  destroyed = [];
}

-- An active manager with one window and one job, while the dialog is up.
abbrev pub asking : Manager Grab
asking = record resting {
  active = true;
  lock_active = true;
  dialog_up = true;
  windows = window ∷ [];
  jobs = (0, running_job) ∷ [];
  watches_monitors = true;
  next_id = 1;
}
