-- ===== src/Examples/Managers.antt =====
-- The theorems on the manager and its windows (src/gs-manager.c, src/gs-window.c) at concrete ones.
use xfce4_screensaver.Base.{◌≡◌, ◌≢◌, true, false, some, none, List, [], ◌∷◌, OnSome, arith, refl}
use mathlib.Core.List.{head?}
use xfce4_screensaver.Window.{Window}
use xfce4_screensaver.Window.Dialog.{line, read_line, contains, response_ok, DialogOptions}
use xfce4_screensaver.Grab.{saver_window}
use xfce4_screensaver.Grab.Seat.{Grab, ops, grab_root}
use xfce4_screensaver.Grab.Laws.{ops-GrabLaws}
use xfce4_screensaver.Manager.Regrab.{finish_regrabs}
use xfce4_screensaver.SessionLock.{SessionLock}
use xfce4_screensaver.Manager.{Manager, deactivated}
use xfce4_screensaver.Manager.Locker.{set_throttled}
use xfce4_screensaver.Manager.Dialogs.{
  handle_window_dialog_up, handle_window_dialog_down, request_unlock, run_dialog,
}
use xfce4_screensaver.Manager.Saver.{activate, deactivate, grab_devices, lock_session, finish}
use xfce4_screensaver.Manager.Step.{
  Event, key_press, pointer_activity, popup_idle, deactivated_idle, dialog_output, manager_idle,
  monitors_changed, unlock_requested, lock_timer_fires, throttle_changed, saver_activated, step,
  run,
}
use xfce4_screensaver.Manager.Locked.{IsLocked}
use xfce4_screensaver.Manager.Locked.Run.{run-IsLocked}
use xfce4_screensaver.Manager.Abstract.{Steps, saver}
use xfce4_screensaver.Manager.Abstract.Refines.{run-Steps}
use xfce4_screensaver.Manager.Unlock.{run_accepted}
use xfce4_screensaver.Manager.Rest.{IsAtRest, deactivate-IsAtRest}
use xfce4_screensaver.Manager.Rest.Run.{run-IsAtRest}
use xfce4_screensaver.Manager.Activation.Begin.{IsShownOn}
use xfce4_screensaver.Manager.Activation.Outcome.{activate-IsShownOn, activate-IsLocked}
use xfce4_screensaver.Manager.Activation.Taking.{Outcome, activate-Outcome}
use xfce4_screensaver.Manager.Throttle.{Halted, set_throttled-IsHalted}
use xfce4_screensaver.Manager.Refusal.{request_unlock_stuck}
use xfce4_screensaver.Examples.{platform, bare_platform, resting, asking, window, grab, display}

activate_done : (activate platform resting).0 ≡ true
unfolding activate grab_devices lock_session grab_root
activate_done = refl

activate-IsLocked_example : IsLocked (activate platform resting).1
activate-IsLocked_example =
    activate-IsLocked platform resting refl refl refl refl refl refl activate_done

activate-IsShownOn_example : IsShownOn platform (4 ∷ 5 ∷ []) (activate platform resting).1
activate-IsShownOn_example = activate-IsShownOn platform resting refl refl activate_done

activate-Outcome_example : Outcome platform ops-GrabLaws resting (activate platform resting)
activate-Outcome_example = activate-Outcome platform ops-GrabLaws resting refl

asking-IsLocked : IsLocked asking
asking-IsLocked = ground arith

refusing : read_line platform.scan_window_id "RESPONSE=CANCEL" ≢ response_ok
unfolding read_line contains
refusing = λ e. ground arith

accepting : read_line platform.scan_window_id "RESPONSE=OK" ≡ response_ok
unfolding read_line contains
accepting = refl

abbrev harmless : List Event
harmless =
    key_press 0 38 97
    ∷ unlock_requested
    ∷ dialog_output 0 (line "RESPONSE=CANCEL")
    ∷ lock_timer_fires
    ∷ monitors_changed display
    ∷ []

run-IsLocked_example : IsLocked (run platform harmless asking)
run-IsLocked_example =
    run-IsLocked platform harmless asking (tt, (tt, (refusing, (tt, (tt, tt))))) asking-IsLocked

run-Steps_example : Steps harmless (saver asking) (saver (run platform harmless asking))
run-Steps_example = run-Steps platform harmless asking

run_accepted_example :
    let r =
      run platform
        (dialog_output 0 (line "RESPONSE=OK") ∷ deactivated_idle 0 ∷ manager_idle ∷ [])
        asking in
    IsAtRest platform r × (r.lock_active ≡ false)
run_accepted_example =
    run_accepted platform "RESPONSE=OK" window asking refl refl refl refl accepting

deactivate-IsAtRest_example :
    ((deactivate platform asking).0 ≡ true)
    × IsAtRest platform (deactivate platform asking).1
    × ((deactivate platform asking).1.lock_active ≡ false)
    × OnSome (λ (l : SessionLock). l.wl_lock ≡ false) (deactivate platform asking).1.lock_manager
    × (head? (deactivate platform asking).1.emitted ≡ some deactivated)
deactivate-IsAtRest_example = deactivate-IsAtRest platform asking refl

resting-IsAtRest : IsAtRest platform resting
resting-IsAtRest = ground arith

abbrev passive : List Event
passive =
    pointer_activity 0
    ∷ unlock_requested
    ∷ throttle_changed true
    ∷ saver_activated false
    ∷ manager_idle
    ∷ []

run-IsAtRest_example : IsAtRest platform (run platform passive resting)
run-IsAtRest_example =
    run-IsAtRest platform passive resting (tt, (tt, (tt, (tt, (tt, tt))))) resting-IsAtRest

set_throttled-IsHalted_example : Halted platform false false (
    set_throttled platform false (
      handle_window_dialog_down platform 0
        (set_throttled platform true (handle_window_dialog_up platform 0 asking))))
set_throttled-IsHalted_example = set_throttled-IsHalted platform 0 asking refl (omega arith, tt)

-- The window of a request to unlock whose dialog is still to come.
abbrev waiting : Window
waiting = record window { popup_dialog_idle = true; lock_watch = false; lock_pid = 0 }

abbrev waited_for : Manager Grab
waited_for = record asking { windows = waiting ∷ [] }

no_dialog : (options : DialogOptions) → bare_platform.spawn_dialog options ≡ none
no_dialog options = refl

request_unlock_stuck_example :
    let r = step bare_platform (popup_idle 0) waited_for in
    ((run_dialog bare_platform waiting waited_for).lock_watch ≡ false)
    × (r.dialog_up ≡ true)
    × (request_unlock bare_platform r ≡ (false, r))
request_unlock_stuck_example =
    request_unlock_stuck bare_platform waiting waited_for no_dialog refl refl refl refl

finish_regrabs_example :
    (g : Grab) × ((finish platform (record asking { windows = window ∷ []; grab = some grab })).grab
      ≡ some g)
    × (ops.holder g ≡ some (saver_window 0))
finish_regrabs_example = finish_regrabs platform ops-GrabLaws window grab asking refl
