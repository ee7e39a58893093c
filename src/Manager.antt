-- ===== src/Manager.antt =====
-- src/gs-manager.c: the screen saver itself. It owns a window for each monitor and a job for each
-- window, the timers that lock the screen and change the theme, and the grab of the input devices.
pub mod Abstract
pub mod Jobs
pub mod Locker
pub mod Dialogs
pub mod Windows
pub mod Saver
pub mod Step
pub mod Tables
pub mod Locked
pub mod Rest
pub mod Activation
pub mod Unlock
pub mod Throttle
pub mod Refusal
pub mod Regrab
pub mod Active
use xfce4_screensaver.Base.{
  ℕ, Bool, true, false, Option, none, some, List, [], ◌∷◌, String, ◌==◌, if◌then◌else◌,
}
use xfce4_screensaver.Prefs.{Prefs}
use xfce4_screensaver.Job.{Job, Env}
use xfce4_screensaver.Window.{Window}
use xfce4_screensaver.Window.Dialog.{DialogOptions}
use xfce4_screensaver.SessionLock.{SessionLock, LockEvent}
use xfce4_screensaver.Grab.{GrabOps}

-- The signals of GSManager.
pub data Emitted : Type 0 where
  activated deactivated auth_request_begin auth_request_end : Emitted

-- The display: its kind, its monitors, the monitor that the pointer is on, and the window that has
-- the focus.
pub record Display : Type 0 where
  pub wayland : Bool
  pub monitors : List ℕ
  pub pointer_monitor : ℕ
  pub is_active : ℕ → Bool

-- GSManagerPrivate and the settings. A timer is `some` of its seconds. Ghost fields: `emitted` has
-- the signals sent, `reaped` the jobs removed and `destroyed` the windows destroyed, newest first;
-- `deactivate_idles` counts the idle sources that window_deactivated_cb added, and `next_id` names
-- the next window.
pub record Manager (Grab : Type 0) : Type 0 where
  pub prefs : Prefs
  pub display : Display
  pub throttled : Bool
  pub status_message : Option String
  pub active : Bool
  pub lock_active : Bool
  pub dialog_up : Bool
  pub lock_timer : Option ℕ
  pub cycle_timer : Option ℕ
  pub windows : List Window
  pub jobs : List (ℕ × Job)
  pub grab : Option Grab
  pub overlay_shown : Bool
  pub lock_manager : Option SessionLock
  pub compositor : Bool
  pub watches_monitors : Bool
  pub deactivate_idles : ℕ
  pub next_id : ℕ
  pub emitted : List Emitted
  pub reaped : List Job
  pub destroyed : List Window

-- What the manager calls: the grab, the children that GLib starts, the time since a window was
-- shown, and the compositor's answer to a lock.
pub record Platform (Grab : Type 0) : Type 0 where
  pub grabs : GrabOps Grab
  pub job_env : Env
  pub spawn_dialog : DialogOptions → Option ℕ
  pub spawn_keyboard : String → Option ℕ
  pub elapsed : Window → ℕ
  pub lock_events : List LockEvent
  pub scan_window_id : String → Option ℕ

-- The windows as a hash table: a lookup by identity and by monitor, and an update in place.
abbrev pub find_window : ℕ → List Window → Option Window
find_window id [] = none
find_window id (x ∷ xs) = let rest = find_window id xs in if x.id == id then some x else rest

abbrev pub find_monitor : ℕ → List Window → Option Window
find_monitor m [] = none
find_monitor m (x ∷ xs) = let rest = find_monitor m xs in if x.monitor == m then some x else rest

abbrev pub update_window : ℕ → (Window → Window) → List Window → List Window
update_window id f [] = []
update_window id f (x ∷ xs) = (if x.id == id then f x else x) ∷ update_window id f xs

abbrev pub find_job : ℕ → List (ℕ × Job) → Option Job
find_job id [] = none
find_job id ((k, j) ∷ js) = let rest = find_job id js in if k == id then some j else rest

abbrev pub update_job : ℕ → (Job → Job) → List (ℕ × Job) → List (ℕ × Job)
update_job id f [] = []
update_job id f ((k, j) ∷ js) = (k, if k == id then f j else j) ∷ update_job id f js
