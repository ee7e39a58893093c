-- ===== src/Manager/Throttle.antt =====
-- The jobs when the throttle is turned on while the unlock dialog is up, and off after the dialog is
-- gone (src/gs-manager.c).
use xfce4_screensaver.Base.{
  ℕ, ◌≡◌, Bool, true, false, List, [], ◌∷◌, All, arith, ◌<◌, if_elim, refl,
}
use xfce4_screensaver.Job.{Job, stopped, is_running, suspend}
use xfce4_screensaver.Manager.{Manager, Platform}
use xfce4_screensaver.Manager.Jobs.{for_jobs, suspend_job, throttle_job, maybe_start}
use xfce4_screensaver.Manager.Locker.{set_throttled, eqb}
use xfce4_screensaver.Manager.Dialogs.{
  handle_window_dialog_up, handle_window_dialog_down, move_grab,
}

-- A job whose child is stopped.
abbrev pub IsHalted : ℕ × Job → Type 0
IsHalted (_, j) = (j.status ≡ stopped) × (0 < j.pid)

halt_jobs :
    (js : List (ℕ × Job))
    → All (λ (e : ℕ × Job). 0 < e.1.pid) js
    → All IsHalted (for_jobs suspend_job js)
unfolding for_jobs suspend_job suspend
halt_jobs [] h = tt
halt_jobs ((id, j) ∷ js) h = (ground arith, halt_jobs js h.1)

module _ {Grab : Type 0} (P : Platform Grab) where
  unthrottle_jobs :
      (m : Manager Grab) (js : List (ℕ × Job))
      → m.throttled ≡ false
      → All IsHalted js
      → All IsHalted (for_jobs (throttle_job P m) js)
  unfolding for_jobs throttle_job maybe_start is_running
  unthrottle_jobs m [] off h = tt
  unthrottle_jobs m ((id, j) ∷ js) off h = (ground arith, unthrottle_jobs m js off h.1)

  abbrev pub Halted : Bool → Bool → Manager Grab → Type 0
  Halted up throttled m = (m.dialog_up ≡ up) × (m.throttled ≡ throttled) × All IsHalted m.jobs

  up-Halted :
      (id : ℕ) (m : Manager Grab)
      → m.throttled ≡ false
      → All (λ (e : ℕ × Job). 0 < e.1.pid) m.jobs
      → Halted true false (handle_window_dialog_up P id m)
  unfolding handle_window_dialog_up move_grab
  up-Halted id m off live =
      if_elim (Halted true false) m.throttled (λ on. absurd (cc))
        (λ _. let halted = halt_jobs m.jobs live in (refl, off, halted))

  throttle-Halted :
      (m : Manager Grab) → Halted true false m → Halted true true (set_throttled P true m)
  unfolding set_throttled eqb
  throttle-Halted m h =
      let (up, off, halted) = h in
      if_elim (Halted true true) (eqb m.throttled true) (λ e. absurd (ground arith))
        λ _. if_elim (Halted true true) m.dialog_up (λ _. (up, refl, halted)) (λ down. absurd (cc))

  down-Halted :
      (id : ℕ) (m : Manager Grab)
      → Halted true true m
      → Halted false true (handle_window_dialog_down P id m)
  unfolding handle_window_dialog_down move_grab
  down-Halted id m h =
      let (up, on, halted) = h in
      if_elim (Halted false true) m.throttled (λ _. (refl, on, halted)) (λ off. absurd (cc))

  unthrottle-Halted :
      (m : Manager Grab) → Halted false true m → Halted false false (set_throttled P false m)
  unfolding set_throttled eqb
  unthrottle-Halted m h =
      let (down, on, halted) = h in
      if_elim (Halted false false) (eqb m.throttled false) (λ e. absurd (ground arith))
        λ _.
          if_elim (Halted false false) m.dialog_up (λ up. absurd (cc))
            (λ _. (down, refl, unthrottle_jobs (record m { throttled = false }) m.jobs refl halted))

  -- A dialog that comes up while the manager is not throttled stops the children of the running
  -- jobs. When the throttle is then turned on, the dialog goes down and the throttle is turned off,
  -- no dialog is up and nothing is throttled, but every child is still stopped.
  pub set_throttled-IsHalted :
      (id : ℕ) (m : Manager Grab)
      → m.throttled ≡ false
      → All (λ (e : ℕ × Job). 0 < e.1.pid) m.jobs
      → let r = set_throttled P false (
          handle_window_dialog_down P id (set_throttled P true (handle_window_dialog_up P id m))) in
        Halted false false r
  set_throttled-IsHalted id m off live =
      let up = handle_window_dialog_up P id m in
      let on = set_throttled P true up in
      let down = handle_window_dialog_down P id on in
      unthrottle-Halted down (down-Halted id on (throttle-Halted up (up-Halted id m off live)))
