-- ===== src/Manager/Jobs.antt =====
-- src/gs-manager.c: the jobs of the windows.
use xfce4_screensaver.Base.{
  ℕ, Bool, true, false, ◌||◌, none, some, List, [], ◌∷◌, ◌++◌, ◌==◌, if◌then◌else◌,
}
use xfce4_screensaver.Job.{Job, start, stop, suspend, is_running, new_for_widget}
use xfce4_screensaver.Window.{Window}
use xfce4_screensaver.Manager.{Manager, Platform, find_window, find_job, update_job}

-- gs_window_is_obscured.
unfoldable pub is_obscured : ℕ → List Window → Bool
is_obscured id windows = elim (find_window id windows) [ none ↦ false | some x ↦ x.obscured ]

module _ {Grab : Type 0} (P : Platform Grab) where
  -- The body of manager_maybe_start_job_for_window for a window's job.
  unfoldable pub maybe_start : Manager Grab → ℕ → Job → Job
  unfolding is_obscured
  maybe_start m id j =
      if m.dialog_up || m.throttled || is_running j || is_obscured id m.windows
      then j
      else (start P.job_env j).1

  unfoldable pub maybe_start_job_for_window : ℕ → Manager Grab → Manager Grab
  unfolding maybe_start
  maybe_start_job_for_window id m = record m { jobs = update_job id (maybe_start m id) m.jobs }

  unfoldable pub throttle_job : Manager Grab → ℕ → Job → Job
  unfolding maybe_start
  throttle_job m id j = if m.throttled then (stop j).1 else maybe_start m id j

  unfoldable pub resume_job : Manager Grab → ℕ → Job → Job
  unfolding maybe_start
  resume_job m id j = if is_running j then (suspend false j).1 else maybe_start m id j

  -- gs_job_new_for_widget in the place of each job, which is stopped, and a start where it may be.
  unfoldable pub cycle_jobs : Manager Grab → List (ℕ × Job) → List (ℕ × Job)
  unfolding maybe_start
  cycle_jobs m [] = []
  cycle_jobs m ((id, j) ∷ js) =
      (id, maybe_start m id (new_for_widget P.job_env id)) ∷ cycle_jobs m js

unfoldable pub maybe_stop_job_for_window : {Grab : Type 0} → ℕ → Manager Grab → Manager Grab
maybe_stop_job_for_window id m = record m { jobs = update_job id (λ j. (stop j).1) m.jobs }

-- g_hash_table_foreach over the jobs: a callback changes the job that it is given.
unfoldable pub for_jobs : (ℕ → Job → Job) → List (ℕ × Job) → List (ℕ × Job)
for_jobs f [] = []
for_jobs f ((id, j) ∷ js) = (id, f id j) ∷ for_jobs f js

unfoldable pub suspend_job : ℕ → Job → Job
suspend_job id j = (suspend true j).1

-- remove_job, for each job that leaves the table.
unfoldable pub remove_jobs : List (ℕ × Job) → List Job
remove_jobs [] = []
remove_jobs ((id, j) ∷ js) = (stop j).1 ∷ remove_jobs js

unfoldable pub remove_all_jobs : {Grab : Type 0} → Manager Grab → Manager Grab
unfolding remove_jobs
remove_all_jobs m = record m { jobs = []; reaped = remove_jobs m.jobs ++ m.reaped }

-- g_hash_table_insert: a job that the window had is removed.
unfoldable pub insert_job : ℕ → Job → List (ℕ × Job) → List (ℕ × Job)
insert_job id new [] = (id, new) ∷ []
insert_job id new ((k, j) ∷ js) =
    let rest = insert_job id new js in if k == id then (id, new) ∷ js else (k, j) ∷ rest

unfoldable pub replaced : ℕ → List (ℕ × Job) → List Job
replaced id jobs = elim (find_job id jobs) [ none ↦ [] | some j ↦ (stop j).1 ∷ [] ]
