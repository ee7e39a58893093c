-- ===== src/Window/Dialog.antt =====
-- src/gs-window.c: the unlock dialog and the on-screen keyboard, which are child processes.
use xfce4_screensaver.Base.{
  ℕ, Bool, true, false, Option, none, some, String, ltb, ◌∷◌, if◌then◌else◌, find?, not, ◌==◌, List,
  [], suc,
}
use xfce4_screensaver.Job.{waited, kill, spawned, sigterm}
use xfce4_screensaver.Prefs.{Prefs}
use xfce4_screensaver.Window.{Window, remove_key_events, remove_popup_dialog_idle, set_dialog_up}

-- keyboard_plug_removed: taking the socket out of its container destroys it.
unfoldable pub keyboard_plug_removed : Window → Window
keyboard_plug_removed w = record w { keyboard_socket = false }

-- lock_plug_removed: the lock box and the overlay go, and the two sockets in them.
unfoldable pub lock_plug_removed : Window → Window
lock_plug_removed w = record w { lock_socket = false; keyboard_socket = false }

unfoldable pub kill_keyboard_process : Window → Window
kill_keyboard_process w =
    if ltb 0 w.keyboard_pid then record w { calls = kill w.keyboard_pid sigterm ∷ w.calls } else w

unfoldable pub kill_dialog_process : Window → Window
kill_dialog_process w =
    if ltb 0 w.lock_pid then record w { calls = kill w.lock_pid sigterm ∷ w.calls } else w

unfoldable pub reap_keyboard : Window → Window
reap_keyboard w =
    if ltb 0 w.keyboard_pid
    then record w { calls = waited w.keyboard_pid ∷ w.calls; keyboard_pid = 0 }
    else w

unfoldable pub reap_dialog : Window → Window
reap_dialog w =
    if ltb 0 w.lock_pid then record w { calls = waited w.lock_pid ∷ w.calls; lock_pid = 0 } else w

unfoldable pub keyboard_process_finish : Window → Window
unfolding kill_keyboard_process reap_keyboard keyboard_plug_removed
keyboard_process_finish w =
    let r = reap_keyboard (kill_keyboard_process w) in
    if r.keyboard_socket then keyboard_plug_removed r else r

-- gs_window_dialog_finish.
unfoldable pub dialog_finish : Window → Window
unfolding keyboard_process_finish kill_dialog_process reap_dialog remove_key_events
dialog_finish w = remove_key_events (reap_dialog (kill_dialog_process (keyboard_process_finish w)))

unfoldable pub remove_command_watches : Window → Window
remove_command_watches w = record w { lock_watch = false; keyboard_watch = false }

-- The end of popdown_dialog, after "notify::dialog-up" has been handled.
unfoldable pub popdown_rest : Window → Window
unfolding lock_plug_removed remove_popup_dialog_idle remove_command_watches
popdown_rest w =
    remove_command_watches
      (remove_popup_dialog_idle (if w.lock_socket then lock_plug_removed w else w))

-- popdown_dialog up to the notification: whether there is one, and the window. The drawing area
-- and the pointer are not modelled.
unfoldable pub popdown_start : Window → Bool × Window
unfolding dialog_finish set_dialog_up
popdown_start w = set_dialog_up false (dialog_finish w)

unfoldable pub contains : String → String → Bool
contains s t = elim (find? s t) [ none ↦ false | some _ ↦ true ]

-- What a line of the dialog's output says. C's sscanf of a window id is a parameter.
pub data Line : Type 0 where
  window_id : Option ℕ → Line
  notice response_ok response_cancel request_quit other : Line

unfoldable pub read_line : (String → Option ℕ) → String → Line
unfolding contains
read_line scan line =
    if contains line "WINDOW ID="
    then window_id (scan line)
    else if contains line "NOTICE="
    then notice
    else if contains line "RESPONSE="
    then if contains line "RESPONSE=OK" then response_ok else response_cancel
    else if contains line "REQUEST QUIT"
    then request_quit
    else other

-- What a watch on a child's output finds: a line, its end, an error, or nothing to read.
pub data Read : Type 0 where
  line : String → Read
  end_of_file read_error read_again hang_up : Read

-- The options of the dialog's command line that depend on the state.
pub record DialogOptions : Type 0 where
  pub monitor_index : ℕ
  pub logout_command : Option String
  pub status_message : Option String
  pub switch : Bool

-- is_logout_enabled, and the command that popup_dialog passes then. `elapsed` is the time, in
-- seconds, since the window was shown.
unfoldable pub logout_option : Prefs → ℕ → Option String
logout_option p elapsed = if not p.logout_enabled then none else elim p.logout_command [
  | none ↦ none
  | some command ↦ if ltb p.logout_timeout elapsed then some command else none
]

-- The position of a window's monitor, or 0.
unfoldable pub index_from : ℕ → ℕ → List ℕ → ℕ
index_from i monitor [] = 0
index_from i monitor (m ∷ ms) =
    let rest = index_from (suc i) monitor ms in if m == monitor then i else rest

unfoldable pub get_monitor_index : List ℕ → Window → ℕ
unfolding index_from
get_monitor_index monitors w = index_from 0 w.monitor monitors

unfoldable pub dialog_options : Prefs → List ℕ → ℕ → Window → DialogOptions
unfolding logout_option get_monitor_index
dialog_options p monitors elapsed w = record {
  monitor_index = get_monitor_index monitors w;
  logout_command = logout_option p elapsed;
  status_message = if p.status_message_enabled then w.status_message else none;
  switch = p.user_switch_enabled;
}

-- spawn_on_window for the keyboard and for the dialog, on an attempt that GLib answers.
unfoldable pub spawn_keyboard : Option ℕ → Window → Window
spawn_keyboard none w = w
spawn_keyboard (some pid) w = record w {
  keyboard_pid = pid;
  keyboard_watch = true;
  calls = spawned pid ∷ w.calls;
}

unfoldable pub spawn_dialog : Option ℕ → Window → Window
spawn_dialog none w = w
spawn_dialog (some pid) w = record w {
  lock_pid = pid;
  lock_watch = true;
  calls = spawned pid ∷ w.calls;
}

-- embed_keyboard: on Wayland the socket is there before the process.
unfoldable pub embed_keyboard : Bool → Prefs → (String → Option ℕ) → Window → Window
unfolding spawn_keyboard
embed_keyboard wayland p spawn w = if not p.keyboard_enabled then w else elim p.keyboard_command [
  | none ↦ w
  | some command ↦
      spawn_keyboard (spawn command) (if wayland then record w { keyboard_socket = true } else w)
]

unfoldable pub create_lock_socket : Bool → Prefs → (String → Option ℕ) → Window → Window
unfolding embed_keyboard
create_lock_socket wayland p spawn w =
    let socketed = record w { lock_socket = true } in
    if p.keyboard_enabled then embed_keyboard wayland p spawn socketed else socketed
