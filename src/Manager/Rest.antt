-- ===== src/Manager/Rest.antt =====
-- What a deactivation leaves of the screen saver, and that nothing happens to it until it is
-- activated (src/gs-manager.c).
pub mod Run
use xfce4_screensaver.Base.{
  ℕ, zero, suc, ◌≡◌, Bool, true, false, not, List, [], ◌∷◌, if_elim, if◌then◌else◌, option_elim,
  OnSome-anything, arith, ◌==◌, ◌&&◌, ◌||◌, refl, none, some, Option, ◌++◌, ◌∙◌, ap, OnSome, map,
}
use mathlib.Core.Option
use mathlib.Core.List.{head?}
use xfce4_screensaver.SessionLock
use xfce4_screensaver.SessionLock.{SessionLock}
use xfce4_screensaver.Job.{Job}
use xfce4_screensaver.Window
use xfce4_screensaver.Window.{Window}
use xfce4_screensaver.Window.Dialog
use xfce4_screensaver.Manager.{Manager, Platform, Emitted, deactivated}
use xfce4_screensaver.Manager.Jobs.{remove_all_jobs, remove_jobs, resume_job, for_jobs}
use xfce4_screensaver.Manager.Locker.{remove_timers, enable_locker}
use xfce4_screensaver.Manager.Dialogs.{handle_window_dialog_down, move_grab}
use xfce4_screensaver.Manager.Windows.{
  destroy_window, destroy_each, remove_all_windows, remove_lock_surfaces, destroy_windows,
}
use xfce4_screensaver.Manager.Saver.{deactivate, finish}

-- No window, no job and no timer is left, and the manager watches no monitor.
pub record Cleared (windows : List Window) (jobs : List (ℕ × Job)) (lock cycle : Option ℕ)
    : Type 0 where
  pub no_windows : windows ≡ []
  pub no_jobs : jobs ≡ []
  pub no_lock_timer : lock ≡ none
  pub no_cycle_timer : cycle ≡ none

abbrev pub IsCleared : {Grab : Type 0} → Manager Grab → Type 0
IsCleared m = Cleared m.windows m.jobs m.lock_timer m.cycle_timer

module _ {Grab : Type 0} (P : Platform Grab) where
  handle_window_dialog_down-IsCleared :
      (id : ℕ) (m : Manager Grab) → IsCleared m → IsCleared (handle_window_dialog_down P id m)
  unfolding handle_window_dialog_down move_grab for_jobs
  handle_window_dialog_down-IsCleared id m h = ground arith

  destroy_window-IsCleared :
      (x : Window) (m : Manager Grab) → IsCleared m → IsCleared (destroy_window P x m)
  unfolding destroy_window
  destroy_window-IsCleared x m h =
      if_elim IsCleared (Dialog.popdown_start x).0
        (λ _. handle_window_dialog_down-IsCleared x.id m h) (λ _. h)

  destroy_each-IsCleared :
      (xs : List Window) (m : Manager Grab) → IsCleared m → IsCleared (destroy_each P xs m)
  unfolding destroy_each
  destroy_each-IsCleared [] m h = h
  destroy_each-IsCleared (x ∷ xs) m h =
      destroy_each-IsCleared xs (destroy_window P x m) (destroy_window-IsCleared x m h)

  destroy_windows-IsCleared :
      (m : Manager Grab)
      → m.jobs ≡ []
      → m.lock_timer ≡ none
      → m.cycle_timer ≡ none
      → IsCleared (destroy_windows P m)
  unfolding destroy_windows remove_all_windows remove_lock_surfaces
  destroy_windows-IsCleared m j l c =
      let start = record (remove_lock_surfaces P (record m { watches_monitors = false })) {
        windows = [];
      } in
      destroy_each-IsCleared m.windows start
        (record { no_windows = refl; no_jobs = j; no_lock_timer = l; no_cycle_timer = c })

  watches-destroy_each :
      (xs : List Window) (m : Manager Grab)
      → (destroy_each P xs m).watches_monitors ≡ m.watches_monitors
  unfolding destroy_each destroy_window handle_window_dialog_down move_grab
  watches-destroy_each [] m = refl
  watches-destroy_each (x ∷ xs) m =
      watches-destroy_each xs (destroy_window P x m)
      ∙ if_elim (λ (n : Manager Grab). n.watches_monitors ≡ m.watches_monitors)
          (Dialog.popdown_start x).0
          (λ _.
            if_elim (λ (n : Manager Grab). n.watches_monitors ≡ m.watches_monitors) m.throttled
              (λ _. refl) (λ _. refl))
          (λ _. refl)

  watches-destroy_windows : (m : Manager Grab) → (destroy_windows P m).watches_monitors ≡ false
  unfolding destroy_windows remove_all_windows remove_lock_surfaces
  watches-destroy_windows m =
      let start = record (remove_lock_surfaces P (record m { watches_monitors = false })) {
        windows = [];
      } in
      watches-destroy_each m.windows start

  no_jobs-remove_all_jobs : (m : Manager Grab) → (remove_all_jobs m).jobs ≡ []
  unfolding remove_all_jobs
  no_jobs-remove_all_jobs m = refl

  lock_timer-remove_all_jobs : (m : Manager Grab) → (remove_all_jobs m).lock_timer ≡ m.lock_timer
  unfolding remove_all_jobs
  lock_timer-remove_all_jobs m = refl

  cycle_timer-remove_all_jobs : (m : Manager Grab) → (remove_all_jobs m).cycle_timer ≡ m.cycle_timer
  unfolding remove_all_jobs
  cycle_timer-remove_all_jobs m = refl

  remove_timers-none :
      (m : Manager Grab)
      → ((remove_timers m).lock_timer ≡ none) × ((remove_timers m).cycle_timer ≡ none)
  unfolding remove_timers
  remove_timers-none m = (refl, refl)

  unlock_released :
      (o : Option SessionLock) → OnSome (λ l. l.wl_lock ≡ false) (Option.map SessionLock.unlock o)
  unfolding SessionLock.unlock
  unlock_released none = tt
  unlock_released (some l) = ground arith

  -- A manager that nothing can bring out of its rest but an activation.
  abbrev pub IsAtRest : Manager Grab → Type 0
  IsAtRest m =
      (m.active ≡ false) × (m.dialog_up ≡ false) × (m.watches_monitors ≡ false) × IsCleared m

  -- Everything but the session lock, which is given up last.
  finish-IsAtRest : (m : Manager Grab) → IsAtRest (finish P m) × ((finish P m).lock_active ≡ false)
  unfolding finish enable_locker
  finish-IsAtRest m =
      let released = record (remove_timers m) { grab = Option.map P.grabs.release m.grab } in
      let gone : IsCleared (destroy_windows P (remove_all_jobs released)) =
        destroy_windows-IsCleared (remove_all_jobs released) (no_jobs-remove_all_jobs released)
          (lock_timer-remove_all_jobs released ∙ (remove_timers-none m).0)
          (cycle_timer-remove_all_jobs released ∙ (remove_timers-none m).1) in
      (
        (
          refl,
          refl,
          watches-destroy_windows (remove_all_jobs released),
          record {
            no_windows = ap (map (Window.set_lock_active false)) gone.no_windows;
            no_jobs = gone.no_jobs;
            no_lock_timer = gone.no_lock_timer;
            no_cycle_timer = gone.no_cycle_timer;
          },
        ),
        refl,
      )

  finish_unlocks : (m : Manager Grab) → OnSome (λ l. l.wl_lock ≡ false) (finish P m).lock_manager
  unfolding finish enable_locker
  finish_unlocks m =
      let released = record (remove_timers m) { grab = Option.map P.grabs.release m.grab } in
      unlock_released (destroy_windows P (remove_all_jobs released)).lock_manager

  finish_emits : (m : Manager Grab) → head? (finish P m).emitted ≡ some deactivated
  unfolding finish
  finish_emits m = refl

  deactivate_active : (m : Manager Grab) → m.active ≡ true → deactivate P m ≡ (true, finish P m)
  unfolding deactivate
  deactivate_active m on =
      if_elim (λ (r : Bool × Manager Grab). r ≡ (true, finish P m)) m.active (λ _. refl)
        (λ off. absurd (cc))

  -- Deactivating an active screen saver succeeds, emits "deactivated" last, and leaves nothing
  -- behind: it is inactive and unlocked, no dialog is up, there is no window, job or timer, it
  -- watches no monitor, and a session lock that it has is given up.
  pub deactivate-IsAtRest :
      (m : Manager Grab)
      → m.active ≡ true
      → ((deactivate P m).0 ≡ true)
        × IsAtRest (deactivate P m).1
        × ((deactivate P m).1.lock_active ≡ false)
        × OnSome (λ l. l.wl_lock ≡ false) (deactivate P m).1.lock_manager
        × (head? (deactivate P m).1.emitted ≡ some deactivated)
  deactivate-IsAtRest m on =
      let (rest, unlocked) = finish-IsAtRest m in
      rw (deactivate_active m on) (refl, rest, unlocked, finish_unlocks m, finish_emits m)
