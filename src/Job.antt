-- ===== src/Job.antt =====
-- src/gs-job.c: the child process that draws a theme in one window. A job keeps the list of the
-- process calls that it makes, newest first. What GLib's spawning, the themes and the settings
-- answer is a parameter.
pub mod Signals
pub mod Runs
use xfce4_screensaver.Base.{
  ℕ, Bool, true, false, ◌||◌, not, Option, none, some, List, [], ◌∷◌, String, ltb, ◌==◌,
  if◌then◌else◌, starts_with, str_append, eqb_option,
}

pub data Signal : Type 0 where
  sigterm sigstop sigcont : Signal

-- A call that reaches the operating system, with the child's pid.
pub data Call : Type 0 where
  spawned waited : ℕ → Call
  kill : ℕ → Signal → Call

-- GSJobStatus.
pub data JobStatus : Type 0 where
  invalid running stopped killed dead : JobStatus

-- GSJobPrivate. A pid or an id of 0 stands for none.
pub record Job : Type 0 where
  pub widget : Option ℕ
  pub status : JobStatus
  pub pid : ℕ
  pub watch_id : ℕ
  pub command : Option String
  pub calls : List Call

-- What is not in this file: the child that GLib starts for a widget and a command, if it can, the
-- id of a watch on its output, the path of the programs, the theme that the settings choose, and
-- the command line that the theme manager has for a theme.
pub record Env : Type 0 where
  pub spawn : ℕ → String → Option ℕ
  pub watch : ℕ → ℕ
  pub libexecdir : String
  pub theme : Option String
  pub theme_command : String → Option String

-- gs_job_init: a new object is zero.
unfoldable pub new : Job
new = record { widget = none; status = invalid; pid = 0; watch_id = 0; command = none; calls = [] }

-- signal_pid, as the jobs use it: the source ignores its result.
signal_pid : Job → Signal → Job
signal_pid j s = record j { calls = kill j.pid s ∷ j.calls }

-- wait_on_child returns when the child has been reaped.
wait_on_child : Job → Job
wait_on_child j = record j { calls = waited j.pid ∷ j.calls }

unfoldable pub died : Job → Job
unfolding wait_on_child
died j =
    let w = if ltb 0 j.pid then record (wait_on_child j) { status = dead } else j in
    record w { pid = 0 }

unfoldable pub is_running : Job → Bool
is_running j = ltb 0 j.pid

unfoldable pub suspend : Bool → Job → Bool × Job
unfolding signal_pid
suspend on j = if j.pid == 0 then (false, j) else (
  true,
  record (signal_pid j (if on then sigstop else sigcont)) {
    status = if on then stopped else running;
  },
)

unfoldable pub is_stopped : JobStatus → Bool
is_stopped stopped = true
is_stopped _ = false

remove_command_watch : Job → Job
remove_command_watch j = record j { watch_id = 0 }

unfoldable pub stop : Job → Bool × Job
unfolding is_stopped remove_command_watch signal_pid died suspend
stop j =
    let resumed = if is_stopped j.status then (suspend false j).1 else j in
    let signalled = record (signal_pid (remove_command_watch resumed) sigterm) {
      status = killed;
    } in
    if j.pid == 0 then (false, j) else (true, died signalled)

-- gs_job_finalize, as far as the process is concerned.
unfoldable pub finalize : Job → Job
unfolding signal_pid died
finalize j = if ltb 0 j.pid then died (signal_pid j sigterm) else j

unfoldable pub set_command : Option String → Job → Job
set_command command j = record j { command = command }

-- What a watch on the child's standard error finds.
pub data Output : Type 0 where
  line end_of_file read_error hang_up other_condition : Output

unfoldable pub is_done : Output → Bool
is_done end_of_file = true
is_done hang_up = true
is_done _ = false

-- Whether the watch is kept, and the job.
unfoldable pub command_watch : Output → Job → Bool × Job
unfolding is_done died
command_watch output j =
    if is_done output then (false, record (died j) { watch_id = 0 }) else (true, j)

module _ (env : Env) where
  -- gs_prefs_get_theme chooses the theme; a theme that the theme manager does not know has no
  -- command.
  unfoldable pub set_theme : Job → Job
  unfolding set_command
  set_theme j = elim env.theme [
    | none ↦ set_command none j
    | some theme ↦ set_command (env.theme_command theme) j
  ]

  is_ours : String → Bool
  is_ours command =
      starts_with command (str_append env.libexecdir "/xfce4-screensaver/floaters")
      || starts_with command (str_append env.libexecdir "/xfce4-screensaver/popsquares")
      || starts_with command (str_append env.libexecdir "/xfce4-screensaver/slideshow")

  -- spawn_on_widget, on an attempt that GLib answers with `child`. The child's priority and
  -- environment are not modelled.
  spawn_on_widget : Option ℕ → Bool → Job → Bool × Job
  spawn_on_widget none watched j = (false, j)
  spawn_on_widget (some child) watched j = (
    true,
    record j {
      pid = child;
      watch_id = if watched then env.watch child else 0;
      calls = spawned child ∷ j.calls;
    },
  )

  mark_running : Bool × Job → Bool × Job
  mark_running (true, j) = (true, record j { status = running })
  mark_running (false, j) = (false, j)

  start_command : ℕ → Option String → Job → Bool × Job
  unfolding is_ours spawn_on_widget mark_running
  start_command widget none j = (false, j)
  start_command widget (some command) j =
      mark_running (spawn_on_widget (env.spawn widget command) (not (is_ours command)) j)

  unfoldable pub start : Job → Bool × Job
  unfolding start_command
  start j =
      if not (j.pid == 0)
      then (false, j)
      else elim j.widget [ none ↦ (false, j) | some widget ↦ start_command widget j.command j ]

  unfoldable pub set_widget : ℕ → Job → Job
  unfolding is_running stop start
  set_widget widget j =
      let placed = record j { widget = some widget } in
      if eqb_option j.widget widget
      then j
      else if is_running placed
      then (start (stop placed).1).1
      else placed

  unfoldable pub new_for_widget : ℕ → Job
  unfolding set_widget set_theme new
  new_for_widget widget = set_theme (set_widget widget new)
