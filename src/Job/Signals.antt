-- ===== src/Job/Signals.antt =====
-- The process calls of src/gs-job.c in order: a child is never waited for while it is stopped,
-- which would block the daemon, since a stopped process keeps a SIGTERM pending.
use xfce4_screensaver.Base.{
  ℕ, ◌≡◌, Bool, true, false, ◌⊎◌, Option, some, List, [], ◌∷◌, arith, ◌==◌, if◌then◌else◌, ◌<◌, ◌≢◌,
  String, refl, not, none, inl, inr, Bool-cases, Option-cases,
}
use xfce4_screensaver.Job.{
  sigterm, sigstop, sigcont, Call, spawned, waited, kill, Job, stopped, running, Env, start, stop,
  suspend, Output, command_watch, is_done, is_stopped, new, mark_running, spawn_on_widget,
  start_command, is_ours,
}

-- Whether the calls, newest first, leave a process stopped. SIGTERM waits until it is continued.
abbrev pub halted : ℕ → List Call → Bool
halted p [] = false
halted p (spawned q ∷ calls) = if p == q then false else halted p calls
halted p (waited q ∷ calls) = halted p calls
halted p (kill q sigterm ∷ calls) = halted p calls
halted p (kill q sigstop ∷ calls) = if p == q then true else halted p calls
halted p (kill q sigcont ∷ calls) = if p == q then false else halted p calls

-- No process was waited for while it was stopped.
abbrev pub NeverStuck : List Call → Type 0
NeverStuck [] = Unit
NeverStuck (waited q ∷ calls) = (halted q calls ≡ false) × NeverStuck calls
NeverStuck (spawned q ∷ calls) = NeverStuck calls
NeverStuck (kill q s ∷ calls) = NeverStuck calls

-- The status says what the calls did to the child, and a job without a child has no watch.
pub record IsValid (j : Job) : Type 0 where
  pub live : 0 < j.pid → (j.status ≡ running) ⊎ (j.status ≡ stopped)
  pub told : 0 < j.pid → halted j.pid j.calls ≡ is_stopped j.status
  pub idle : j.pid ≡ 0 → (j.status ≢ running) × (j.status ≢ stopped) × (j.watch_id ≡ 0)
  pub never_stuck : NeverStuck j.calls

pub new-IsValid : IsValid new
unfolding new
new-IsValid = ground arith

pub suspend-IsValid : (on : Bool) (j : Job) → IsValid j → IsValid (suspend on j).1
unfolding suspend is_stopped
suspend-IsValid on j v = ground arith

pub stop-IsValid : (j : Job) → IsValid j → IsValid (stop j).1
unfolding stop is_stopped
stop-IsValid j v = ground arith

pub died-IsValid :
    (output : Output) (j : Job)
    → (is_done output ≡ true → j.status ≢ stopped)
    → IsValid j
    → IsValid (command_watch output j).1
unfolding command_watch is_stopped
died-IsValid output j h v = ground arith

-- A pid is positive.
abbrev pub HasPids : Env → Type 0
HasPids env = (widget : ℕ) (command : String) (p : ℕ) → env.spawn widget command ≡ some p → 0 < p

spawn-IsValid :
    (env : Env) (child : Option ℕ) (watched : Bool) (j : Job)
    → ((p : ℕ) → child ≡ some p → 0 < p)
    → j.pid ≡ 0
    → IsValid j
    → IsValid (mark_running env (spawn_on_widget env child watched j)).1
unfolding mark_running spawn_on_widget is_stopped
spawn-IsValid env none watched j positive e v = v
spawn-IsValid env (some p) watched j positive e v = let h = positive p refl in ground arith

start_command-IsValid :
    (env : Env) (widget : ℕ) (command : Option String) (j : Job)
    → HasPids env
    → j.pid ≡ 0
    → IsValid j
    → IsValid (start_command env widget command j).1
unfolding start_command
start_command-IsValid env widget none j positive e v = v
start_command-IsValid env widget (some c) j positive e v =
    spawn-IsValid env (env.spawn widget c) (not (is_ours env c)) j (positive widget c) e v

pub start-IsValid : (env : Env) (j : Job) → HasPids env → IsValid j → IsValid (start env j).1
unfolding start
start-IsValid env j positive v = elim (Bool-cases (j.pid == 0)) [
  | inr alive ↦ rw alive v
  | inl free ↦ rw free (elim (Option-cases j.widget) [
    | inl e ↦ rw e v
    | inr (w, e) ↦ rw e (start_command-IsValid env w j.command j positive (ground arith) v)
  ])
]

pub start-Earlier : (env : Env) (j : Job) → NeverStuck (start env j).1.calls → NeverStuck j.calls
unfolding start start_command mark_running spawn_on_widget
start-Earlier env j h = elim (Bool-cases (j.pid == 0)) [
  | inr alive ↦ ground (arith, h)
  | inl free ↦ elim (Option-cases j.widget) [
    | inl e ↦ ground (arith, h)
    | inr (w, e) ↦ elim (Option-cases j.command) [
      | inl e' ↦ ground (arith, h)
      | inr (c, e') ↦ elim (Option-cases (env.spawn w c)) [
        | inl e'' ↦ ground (arith, h)
        | inr (p, e'') ↦ ground (arith, h)
      ]
    ]
  ]
]
