-- ===== src/Examples/Jobs.antt =====
-- The theorems on jobs (src/gs-job.c), on the session lock (src/gs-session-lock-manager.c) and on a
-- single window (src/gs-window.c) at concrete ones.
use xfce4_screensaver.Base.{◌≡◌, true, false, List, [], ◌∷◌, arith, refl, if◌then◌else◌}
use xfce4_screensaver.Job.{is_stopped, finalize}
use xfce4_screensaver.Job.Signals.{IsValid, HasPids}
use xfce4_screensaver.Job.Runs.{
  Op, starts, stops, suspends, resumes, run, Stuck, meets_stopped, run-Stuck,
}
use xfce4_screensaver.SessionLock.{SessionLock, LockEvent, locked_event, finished_event, lock}
use xfce4_screensaver.SessionLock.Protocol.{is_locked, is_finished, given_up, lock_protocol}
use xfce4_screensaver.Examples.{job_env, halted_job}

halted_job-IsValid : IsValid halted_job
unfolding is_stopped
halted_job-IsValid = ground arith

job_env-HasPids : HasPids job_env
job_env-HasPids widget command p e = ground arith

abbrev ops : List Op
ops = resumes ∷ suspends ∷ stops ∷ starts ∷ []

run-Stuck_example :
    Stuck (meets_stopped job_env ops halted_job) (finalize (run job_env ops halted_job))
run-Stuck_example = run-Stuck job_env ops halted_job job_env-HasPids halted_job-IsValid

abbrev unlocked : SessionLock
unlocked = record { wl_lock = false; locked = false; lock_surfaces = []; requests = [] }

abbrev refused : List LockEvent
refused = finished_event ∷ []

abbrev granted : List LockEvent
granted = locked_event ∷ []

lock_protocol_example : lock refused unlocked ≡ (
    if is_finished refused
    then (false, given_up (is_locked refused) unlocked)
    else (true, record unlocked { wl_lock = true; locked = is_locked refused }))
lock_protocol_example = lock_protocol refused unlocked refl refl refl
