-- ===== src/Manager/Locked.antt =====
-- A locked screen saver (src/gs-manager.c, src/gs-window.c), and the operations that keep it locked.
pub mod Windows
pub mod Dialogs
pub mod Run
use xfce4_screensaver.Base.{
  ℕ, ◌≡◌, Bool, true, false, not, List, All, All-map, if_elim, if◌then◌else◌, option_elim, arith,
  ◌==◌,
}
use xfce4_screensaver.Window
use xfce4_screensaver.Window.{Window, cancel}
use xfce4_screensaver.Window.Dialog
use xfce4_screensaver.Manager.{Manager, Platform, update_window}
use xfce4_screensaver.Manager.Tables.{All-update_window, OnSome-find_window_at_pointer}
use xfce4_screensaver.Manager.Dialogs.{
  desensitize, sensitize, handle_window_dialog_up, handle_window_dialog_down, popdown_window,
  window_request_unlock, find_window_at_pointer, request_unlock,
}

-- A window that is locked, has no deactivation under way, and whose dialog has not accepted.
abbrev pub Kept : Window → Type 0
Kept x = (x.lock_active ≡ true) × (x.deactivated_idle ≡ false) × (x.dialog_response ≡ cancel)

pub record LockedState (active lock_active : Bool) (idles : ℕ) (windows : List Window)
    : Type 0 where
  pub is_on : active ≡ true
  pub is_locked : lock_active ≡ true
  pub no_idle : idles ≡ 0
  pub kept : All Kept windows

-- The saver is active and locked, and nothing is under way that would deactivate it.
abbrev pub IsLocked : {Grab : Type 0} → Manager Grab → Type 0
IsLocked m = LockedState m.active m.lock_active m.deactivate_idles m.windows

pub with_windows :
    {a l : Bool} {n : ℕ} {xs ys : List Window}
    → LockedState a l n xs
    → All Kept ys
    → LockedState a l n ys
with_windows h kept = record {
  is_on = h.is_on;
  is_locked = h.is_locked;
  no_idle = h.no_idle;
  kept = kept;
}

desensitize-Kept : (id : ℕ) (x : Window) → Kept x → Kept (desensitize id x)
unfolding desensitize
desensitize-Kept id x h = if_elim Kept (x.id == id) (λ _. h) (λ _. h)

sensitize-Kept : (x : Window) → Kept x → Kept (sensitize x)
unfolding sensitize
sensitize-Kept x h = h

popdown_start-Kept : (x : Window) → Kept x → Kept (Dialog.popdown_start x).1
unfolding Dialog.popdown_start
popdown_start-Kept x h = ground arith

popdown_rest-Kept : (x : Window) → Kept x → Kept (Dialog.popdown_rest x)
unfolding Dialog.popdown_rest
popdown_rest-Kept x h = ground arith

module _ {Grab : Type 0} (P : Platform Grab) where
  handle_window_dialog_up-IsLocked :
      (id : ℕ) (m : Manager Grab) → IsLocked m → IsLocked (handle_window_dialog_up P id m)
  unfolding handle_window_dialog_up
  handle_window_dialog_up-IsLocked id m h =
      let h' =
        with_windows h (All-map Kept (desensitize id) m.windows (desensitize-Kept id) h.kept) in
      if_elim IsLocked m.throttled (λ _. h') (λ _. h')

  pub handle_window_dialog_down-IsLocked :
      (id : ℕ) (m : Manager Grab) → IsLocked m → IsLocked (handle_window_dialog_down P id m)
  unfolding handle_window_dialog_down
  handle_window_dialog_down-IsLocked id m h =
      let h' = with_windows h (All-map Kept sensitize m.windows sensitize-Kept h.kept) in
      if_elim IsLocked m.throttled (λ _. h') (λ _. h')

  pub popdown_window-IsLocked :
      (x : Window) (m : Manager Grab) → Kept x → IsLocked m → IsLocked (popdown_window P x m)
  unfolding popdown_window
  popdown_window-IsLocked x m k h =
      let (notify, x') = Dialog.popdown_start x in
      let begun = record m { windows = update_window x.id (λ _. x') m.windows } in
      let h1 : IsLocked begun =
        with_windows h (
          All-update_window Kept x.id (λ _. x') m.windows (λ _ _. popdown_start-Kept x k) h.kept) in
      let notified = if notify then handle_window_dialog_down P x.id begun else begun in
      let h2 : IsLocked notified =
        if_elim IsLocked notify (λ _. handle_window_dialog_down-IsLocked x.id begun h1) (λ _. h1) in
      with_windows h2
        (All-update_window Kept x.id Dialog.popdown_rest notified.windows popdown_rest-Kept h2.kept)

  set_dialog_up-Kept :
      (x : Window) → Kept x → Kept (Window.set_dialog_up true (Window.add_popup_dialog_idle x)).1
  unfolding Window.set_dialog_up Window.add_popup_dialog_idle
  set_dialog_up-Kept x h = ground arith

  pub window_request_unlock-IsLocked :
      (x : Window) (m : Manager Grab) → Kept x → IsLocked m → IsLocked (window_request_unlock P x m)
  unfolding window_request_unlock
  window_request_unlock-IsLocked x m k h =
      let (notify, x') = Window.set_dialog_up true (Window.add_popup_dialog_idle x) in
      let risen = record m { windows = update_window x.id (λ _. x') m.windows } in
      let h1 : IsLocked risen =
        with_windows h (
          All-update_window Kept x.id (λ _. x') m.windows (λ _ _. set_dialog_up-Kept x k) h.kept) in
      if_elim IsLocked (not x.visible) (λ _. h)
        λ _.
          if_elim IsLocked x.lock_watch (λ _. h)
            λ _.
              if_elim IsLocked (not x.lock_active) (λ unlocked. cc k.0)
                λ _.
                  if_elim IsLocked notify (λ _. handle_window_dialog_up-IsLocked x.id risen h1)
                    (λ _. h1)

  pub request_unlock-IsLocked : (m : Manager Grab) → IsLocked m → IsLocked (request_unlock P m).1
  unfolding request_unlock
  request_unlock-IsLocked m h =
      if_elim (λ (r : Bool × Manager Grab). IsLocked r.1) (not m.active) (λ _. h)
        λ _.
          if_elim (λ (r : Bool × Manager Grab). IsLocked r.1) m.dialog_up (λ _. h)
            λ _.
              option_elim (λ (r : Bool × Manager Grab). IsLocked r.1) Kept
                (find_window_at_pointer P m) (OnSome-find_window_at_pointer Kept P m h.kept) h
                (λ x k. window_request_unlock-IsLocked x m k h)
