-- ===== src/Examples/Commands.antt =====
-- The theorems on the command (src/xfce4-screensaver-command.c) and on the themes
-- (src/gs-theme-manager.c) at concrete data.
use xfce4_screensaver.Base.{
  true, false, none, some, [], ◌∷◌, refl, Option, List, String, str_eq, str_append, starts_with,
  if◌then◌else◌,
}
use xfce4_screensaver.ThemeManager.{Files, MenuItem, theme_command}
use xfce4_screensaver.Grab.Seat.{Grab}
use xfce4_screensaver.Monitor.{Daemon, handlers}
use xfce4_screensaver.Command.{Options, Caller, Bus, unsent, overdue, in_time, Talk, do_command}
use xfce4_screensaver.Command.Effects.{Effects, do_command-Effects}
use xfce4_screensaver.Examples.{platform}
use xfce4_screensaver.Examples.Listeners.{quiet}

abbrev options : Options
options = record {
  do_quit = false;
  do_lock = true;
  do_cycle = false;
  do_activate = false;
  do_deactivate = false;
  do_version = false;
  do_poke = true;
  do_inhibit = true;
  do_query = true;
  do_time = false;
  inhibit_reason = some "film";
  inhibit_application = none;
}

abbrev caller : Caller
caller = record { name = ":1.9"; draws = 7 ∷ 8 ∷ []; answer = some 6; now = "now" }

-- A bus that takes each message but the one for the lock, and is late with the reply for an inhibitor.
abbrev bus : Bus
bus = λ m.
    if str_eq m.member "Lock"
    then unsent
    else if str_eq m.member "Inhibit"
    then overdue
    else in_time

abbrev before_command : Talk (Daemon Grab)
before_command = record { lines = []; world = quiet }

do_command-Effects_example :
    Effects bus
      (handlers platform)
      caller
      options
      before_command
      (do_command bus (handlers platform) true caller options before_command)
do_command-Effects_example =
    do_command-Effects bus (handlers platform) caller options before_command refl

abbrev files : Files
files = record {
  is_executable = λ path. str_eq path "/usr/lib/xscreensaver/floaters";
  is_dir = λ path. false;
  path_is_absolute = λ path. starts_with path "/";
  path_get_dirname = λ path. "/";
  build_filename = λ dir word. str_append dir (str_append "/" word);
  shell_parse_argv = λ command. some (command, []);
  without_suffix = λ id. id;
}

abbrev menu : List MenuItem
menu =
    record { name = "Floaters"; command = "floaters"; desktop_id = some "xfce-floaters.desktop" }
    ∷ []

abbrev locations : List String
locations = "/usr/lib/xscreensaver" ∷ []

abbrev floaters : Option String
floaters = theme_command files locations menu (λ theme. "--all") "xfce-floaters"
