-- ===== src/Manager/Refusal.antt =====
-- An unlock dialog that cannot be started on X11 (src/gs-window.c, src/gs-manager.c).
use xfce4_screensaver.Base.{
  ◌≡◌, Bool, true, false, not, arith, none, some, if_elim, ◌&&◌, refl, ◌∙◌, if◌then◌else◌,
}
use xfce4_screensaver.Window.{Window}
use xfce4_screensaver.Window.Dialog
use xfce4_screensaver.Window.Dialog.{DialogOptions}
use xfce4_screensaver.Manager.{Manager, Platform, find_window}
use xfce4_screensaver.Manager.Dialogs.{popup_dialog, popup_dialog_idle, request_unlock, run_dialog}
use xfce4_screensaver.Manager.Step.{step, popup_idle}
use xfce4_screensaver.Manager.Unlock.{at_window_found}

module _ {Grab : Type 0} (P : Platform Grab) where
  request_unlock_up : (m : Manager Grab) → m.dialog_up ≡ true → request_unlock P m ≡ (false, m)
  unfolding request_unlock
  request_unlock_up m up =
      let R = λ (r : Bool × Manager Grab). r ≡ (false, m) in
      if_elim R (not m.active) (λ _. refl)
        λ _. if_elim R m.dialog_up (λ _. refl) (λ down. absurd (cc))

  dialog_up-popup_dialog_idle :
      (x : Window) (m : Manager Grab)
      → m.display.wayland ≡ false
      → (popup_dialog_idle P x m).dialog_up ≡ m.dialog_up
  unfolding popup_dialog_idle popup_dialog
  dialog_up-popup_dialog_idle x m x11 =
      if_elim (λ (r : Manager Grab). r.dialog_up ≡ m.dialog_up)
        (m.display.wayland && not (m.display.is_active x.id)) (λ w. absurd (ground arith))
        (λ _. refl)

  lock_watch-run_dialog :
      (x : Window) (m : Manager Grab)
      → ((o : DialogOptions) → P.spawn_dialog o ≡ none)
      → m.display.wayland ≡ false
      → (run_dialog P x m).lock_watch ≡ x.lock_watch
  unfolding run_dialog Dialog.spawn_dialog
  lock_watch-run_dialog x m fails x11 =
      let options = Dialog.dialog_options m.prefs m.display.monitors (P.elapsed x) x in
      let failed = fails options in ground arith

  -- On X11, when the dialog that was asked for cannot be started, no watch on a dialog is added to
  -- its window, the manager still takes the dialog to be up, and it refuses the next request to
  -- unlock.
  pub request_unlock_stuck :
      (x : Window) (m : Manager Grab)
      → ((o : DialogOptions) → P.spawn_dialog o ≡ none)
      → m.display.wayland ≡ false
      → m.dialog_up ≡ true
      → x.popup_dialog_idle ≡ true
      → find_window x.id m.windows ≡ some x
      → let r = step P (popup_idle x.id) m in
        ((run_dialog P x m).lock_watch ≡ x.lock_watch)
        × (r.dialog_up ≡ true)
        × (request_unlock P r ≡ (false, r))
  unfolding step
  request_unlock_stuck x m fails x11 up pending found =
      let ran : step P (popup_idle x.id) m ≡ popup_dialog_idle P x m =
        at_window_found P x.id (λ x m. if x.popup_dialog_idle then popup_dialog_idle P x m else m) m
          x found
        ∙ if_elim (λ (n : Manager Grab). n ≡ popup_dialog_idle P x m) x.popup_dialog_idle
            (λ _. refl) (λ e. absurd (cc)) in
      let still : (popup_dialog_idle P x m).dialog_up ≡ true =
        dialog_up-popup_dialog_idle x m x11 ∙ up in
      let still' : (step P (popup_idle x.id) m).dialog_up ≡ true = rw ran still in
      (
        lock_watch-run_dialog x m fails x11,
        still',
        request_unlock_up (step P (popup_idle x.id) m) still',
      )
