-- ===== src/Job/Runs.antt =====
-- Sequences of operations on one job of src/gs-job.c.
use mathlib.Core.Path.{subst}
use xfce4_screensaver.Base.{
  refl, sym, Bool-cases, inl, inr, false, Bool, ◌||◌, ◌&&◌, ◌≡◌, true, false, ◌≢◌, List, [], ◌∷◌,
  arith, if◌then◌else◌, ◌<◌,
}
use xfce4_screensaver.Job.{
  sigterm, sigcont, waited, kill, Job, stopped, dead, Env, start, stop, suspend, Output,
  command_watch, is_done, is_stopped, died, finalize,
}
use xfce4_screensaver.Job.Signals.{
  NeverStuck, IsValid, HasPids, suspend-IsValid, stop-IsValid, start-IsValid, died-IsValid,
  start-Earlier,
}

-- The operations that the daemon makes on a job, and what the main loop does with its watch.
pub data Op : Type 0 where
  starts stops suspends resumes : Op
  outputs : Output → Op

abbrev pub apply : Env → Op → Job → Job
apply env starts j = (start env j).1
apply env stops j = (stop j).1
apply env suspends j = (suspend true j).1
apply env resumes j = (suspend false j).1
apply env (outputs o) j = (command_watch o j).1

abbrev pub run : Env → List Op → Job → Job
run env [] j = j
run env (op ∷ ops) j = run env ops (apply env op j)

-- A process that is stopped closes no output.
abbrev pub IsLegal : Op → Job → Type 0
IsLegal (outputs o) j = is_done o ≡ true → j.status ≢ stopped
IsLegal _ j = Unit

abbrev pub AreLegal : Env → List Op → Job → Type 0
AreLegal env [] j = Unit
AreLegal env (op ∷ ops) j = IsLegal op j × AreLegal env ops (apply env op j)

apply-IsValid :
    (env : Env) (op : Op) (j : Job)
    → HasPids env
    → IsLegal op j
    → IsValid j
    → IsValid (apply env op j)
apply-IsValid env starts j p l v = start-IsValid env j p v
apply-IsValid env stops j p l v = stop-IsValid j v
apply-IsValid env suspends j p l v = suspend-IsValid true j v
apply-IsValid env resumes j p l v = suspend-IsValid false j v
apply-IsValid env (outputs o) j p l v = died-IsValid o j l v

pub run-IsValid :
    (env : Env) (ops : List Op) (j : Job)
    → HasPids env
    → AreLegal env ops j
    → IsValid j
    → IsValid (run env ops j)
run-IsValid env [] j p l v = v
run-IsValid env (op ∷ ops) j p l v =
    run-IsValid env ops (apply env op j) p l.1 (apply-IsValid env op j p l.0 v)

-- Stopping a valid job with a child succeeds: the child is continued first if it was stopped, told
-- to end and waited for, and the job is dead, with no child and no watch.
pub stop_calls :
    (j : Job)
    → IsValid j
    → 0 < j.pid
    → ((stop j).0 ≡ true)
      × ((stop j).1.pid ≡ 0)
      × ((stop j).1.watch_id ≡ 0)
      × ((stop j).1.status ≡ dead)
      × ((stop j).1.calls
          ≡ waited j.pid
            ∷ kill j.pid sigterm
            ∷ (if is_stopped j.status then kill j.pid sigcont ∷ j.calls else j.calls))
unfolding stop is_stopped
stop_calls j v h = ground arith

-- Finalizing a valid job that is suspended waits for its stopped child: gs_job_finalize does not
-- continue it first, as gs_job_stop does.
pub finalize_stuck :
    (j : Job) → IsValid j → 0 < j.pid → j.status ≡ stopped → ¬ NeverStuck (finalize j).calls
unfolding finalize is_stopped
finalize_stuck j v h e = λ n. ground arith

-- What leaves the operations stuck leaves what follows them stuck.
stop-Earlier : (j : Job) → NeverStuck (stop j).1.calls → NeverStuck j.calls
unfolding stop is_stopped
stop-Earlier j h = ground arith

suspend-Earlier : (on : Bool) (j : Job) → NeverStuck (suspend on j).1.calls → NeverStuck j.calls
unfolding suspend
suspend-Earlier on j h = ground arith

watch-Earlier : (o : Output) (j : Job) → NeverStuck (command_watch o j).1.calls → NeverStuck j.calls
unfolding command_watch is_done
watch-Earlier o j h = ground arith

finalize-Earlier : (j : Job) → NeverStuck (finalize j).calls → NeverStuck j.calls
unfolding finalize
finalize-Earlier j h = ground arith

apply-Earlier :
    (env : Env) (op : Op) (j : Job) → NeverStuck (apply env op j).calls → NeverStuck j.calls
apply-Earlier env starts j h = start-Earlier env j h
apply-Earlier env stops j h = stop-Earlier j h
apply-Earlier env suspends j h = suspend-Earlier true j h
apply-Earlier env resumes j h = suspend-Earlier false j h
apply-Earlier env (outputs o) j h = watch-Earlier o j h

life-Earlier :
    (env : Env) (ops : List Op) (j : Job)
    → NeverStuck (finalize (run env ops j)).calls
    → NeverStuck j.calls
life-Earlier env [] j h = finalize-Earlier j h
life-Earlier env (op ∷ ops) j h = apply-Earlier env op j (life-Earlier env ops (apply env op j) h)

-- Whether an operation closes the output of a child that is stopped.
abbrev pub closes_stopped : Op → Job → Bool
closes_stopped (outputs o) j = is_done o && is_stopped j.status
closes_stopped _ j = false

-- Whether that happens in a sequence, or the sequence leaves the child stopped.
abbrev pub meets_stopped : Env → List Op → Job → Bool
meets_stopped env [] j = is_stopped j.status
meets_stopped env (op ∷ ops) j =
    let rest = meets_stopped env ops (apply env op j) in closes_stopped op j || rest

abbrev pub Stuck : Bool → Job → Type 0
Stuck true j = ¬ NeverStuck j.calls
Stuck false j = NeverStuck j.calls

finalize-Stuck : (b : Bool) (j : Job) → IsValid j → is_stopped j.status ≡ b → Stuck b (finalize j)
unfolding finalize is_stopped
finalize-Stuck true j v e = λ n. ground arith
finalize-Stuck false j v e = ground arith

closed-Stuck :
    (op : Op) (env : Env) (j : Job)
    → IsValid j
    → closes_stopped op j ≡ true
    → ¬ NeverStuck (apply env op j).calls
unfolding command_watch is_stopped died
closed-Stuck (outputs o) env j v e = λ h. ground arith
closed-Stuck _ env j v e = λ h. cc

legal : (op : Op) (j : Job) → closes_stopped op j ≡ false → IsLegal op j
unfolding is_stopped
legal starts j e = tt
legal stops j e = tt
legal suspends j e = tt
legal resumes j e = tt
legal (outputs o) j e = λ done bad. ground arith

-- A valid job that lives through a sequence of operations, where pids are positive, and is then
-- finalized. If the end of its output is never met while the child is stopped, and the sequence does
-- not leave the child stopped, then no child is waited for while it is stopped. If one of these
-- happens, then the daemon does wait for a stopped child: command_watch and gs_job_finalize, unlike
-- gs_job_stop, do not continue it first.
pub run-Stuck :
    (env : Env) (ops : List Op) (j : Job)
    → HasPids env
    → IsValid j
    → Stuck (meets_stopped env ops j) (finalize (run env ops j))
run-Stuck env [] j p v = finalize-Stuck (is_stopped j.status) j v refl
run-Stuck env (op ∷ ops) j p v =
    let rest = meets_stopped env ops (apply env op j) in
    elim (Bool-cases (closes_stopped op j)) [
      | inl e ↦
          subst (λ b. Stuck (b || rest) (finalize (run env ops (apply env op j)))) (sym e)
            (λ h. closed-Stuck op env j v e (life-Earlier env ops (apply env op j) h))
      | inr e ↦
          subst (λ b. Stuck (b || rest) (finalize (run env ops (apply env op j)))) (sym e)
            (run-Stuck env ops (apply env op j) p (apply-IsValid env op j p (legal op j e) v))
    ]
