-- ===== src/Manager/Locked/Dialogs.antt =====
-- The unlock dialog of a locked screen saver comes and goes, and what it says keeps the screen
-- locked unless it accepts (src/gs-manager.c, src/gs-window.c).
use xfce4_screensaver.Base.{
  ℕ, ◌≡◌, ◌≢◌, Bool, true, false, not, All, if_elim, if◌then◌else◌, arith, ◌&&◌, refl, none, some,
  Option,
}
use xfce4_screensaver.Window
use xfce4_screensaver.Window.{Window, cancel, accept, Response}
use xfce4_screensaver.Window.Dialog
use xfce4_screensaver.Window.Dialog.{
  Line, window_id, notice, response_ok, response_cancel, request_quit, other, Read, line,
  end_of_file, read_error, read_again, hang_up, read_line,
}
use xfce4_screensaver.Manager.{Manager, Platform, update_window}
use xfce4_screensaver.Manager.Tables.{All-update_window}
use xfce4_screensaver.Manager.Dialogs.{
  popdown_window, run_dialog, popup_dialog, popup_dialog_idle, read_dialog_line, read_dialog,
  finish_dialog, dialog_process_watch,
}
use xfce4_screensaver.Manager.Locked.{Kept, IsLocked, with_windows, popdown_window-IsLocked}

pub queue_key_event-Kept :
    (keyval : ℕ) (x : Window) → Kept x → Kept (Window.queue_key_event keyval x)
unfolding Window.queue_key_event
queue_key_event-Kept keyval x k = ground arith

pub forward_key_events-Kept : (x : Window) → Kept x → Kept (Window.forward_key_events x)
unfolding Window.forward_key_events
forward_key_events-Kept x k = k

pub spawn_dialog-Kept : (o : Option ℕ) (x : Window) → Kept x → Kept (Dialog.spawn_dialog o x)
unfolding Dialog.spawn_dialog
spawn_dialog-Kept none x k = k
spawn_dialog-Kept (some p) x k = k

module _ {Grab : Type 0} (P : Platform Grab) where
  pub create_lock_socket-Kept :
      (wayland : Bool) (m : Manager Grab) (x : Window)
      → Kept x
      → Kept (Dialog.create_lock_socket wayland m.prefs P.spawn_keyboard x)
  unfolding Dialog.create_lock_socket
  create_lock_socket-Kept wayland m x k = ground arith

  pub run_dialog-Kept : (x : Window) (m : Manager Grab) → Kept x → Kept (run_dialog P x m)
  unfolding run_dialog
  run_dialog-Kept x m k =
      let options = Dialog.dialog_options m.prefs m.display.monitors (P.elapsed x) x in
      let socketed =
        if m.display.wayland
        then Dialog.create_lock_socket true m.prefs P.spawn_keyboard x
        else x in
      let k' : Kept socketed =
        if_elim Kept m.display.wayland (λ _. create_lock_socket-Kept true m x k) (λ _. k) in
      spawn_dialog-Kept (P.spawn_dialog options) socketed k'

  -- What a dialog may say without accepting.
  abbrev pub IsRefusal : Read → Type 0
  IsRefusal (line text) = read_line P.scan_window_id text ≢ response_ok
  IsRefusal _ = Unit

  pub read_dialog_line-Kept :
      (l : Line) (wayland : Bool) (m : Manager Grab) (x : Window)
      → l ≢ response_ok
      → Kept x
      → Kept (read_dialog_line P l wayland m x).1
  unfolding read_dialog_line Dialog.kill_dialog_process
  read_dialog_line-Kept (window_id (some i)) wayland m x r k =
      if_elim Kept wayland (λ _. k) (λ _. create_lock_socket-Kept false m x k)
  read_dialog_line-Kept (window_id none) wayland m x r k = k
  read_dialog_line-Kept notice wayland m x r k = k
  read_dialog_line-Kept response_ok wayland m x r k = absurd (r refl)
  read_dialog_line-Kept response_cancel wayland m x r k = (k.0, k.1, refl)
  read_dialog_line-Kept request_quit wayland m x r k = ground arith
  read_dialog_line-Kept other wayland m x r k = k

  pub read_dialog-Kept :
      (read : Read) (m : Manager Grab) (x : Window)
      → IsRefusal read
      → Kept x
      → Kept (read_dialog P read m x).1
  unfolding read_dialog
  read_dialog-Kept (line text) m x r k =
      read_dialog_line-Kept (read_line P.scan_window_id text) m.display.wayland m x r k
  read_dialog-Kept end_of_file m x r k = k
  read_dialog-Kept read_error m x r k = k
  read_dialog-Kept read_again m x r k = k
  read_dialog-Kept hang_up m x r k = k

  pub popup_dialog-IsLocked :
      (x : Window) (m : Manager Grab) → Kept x → IsLocked m → IsLocked (popup_dialog P x m)
  unfolding popup_dialog
  popup_dialog-IsLocked x m k h =
      let h' : All Kept (update_window x.id (λ _. run_dialog P x m) m.windows) =
        All-update_window Kept x.id (λ _. run_dialog P x m) m.windows (λ _ _. run_dialog-Kept x m k)
          h.kept in
      if_elim IsLocked (m.display.wayland && not (m.display.is_active x.id))
        (λ _. popdown_window-IsLocked P x m k h) (λ _. with_windows h h')

  pub popup_dialog_idle-IsLocked :
      (x : Window) (m : Manager Grab) → Kept x → IsLocked m → IsLocked (popup_dialog_idle P x m)
  unfolding popup_dialog_idle
  popup_dialog_idle-IsLocked x m k h =
      let h' : IsLocked (popup_dialog P x m) = popup_dialog-IsLocked x m k h in
      with_windows h' (
        All-update_window Kept x.id (λ y. record y { popup_dialog_idle = false })
          (popup_dialog P x m).windows (λ _ k. k) h'.kept)

  pub finish_dialog-IsLocked :
      (r : Response) (x : Window) (m : Manager Grab)
      → r ≡ cancel
      → Kept x
      → IsLocked m
      → IsLocked (finish_dialog P r x m)
  unfolding finish_dialog
  finish_dialog-IsLocked accept x m e k h = cc
  finish_dialog-IsLocked cancel x m e k h =
      let h' : IsLocked (popdown_window P x m) = popdown_window-IsLocked P x m k h in
      with_windows h' (
        All-update_window Kept x.id (λ y. record y { lock_watch = false })
          (popdown_window P x m).windows (λ _ k. k) h'.kept)

  pub dialog_process_watch-IsLocked :
      (read : Read) (x : Window) (m : Manager Grab)
      → IsRefusal read
      → Kept x
      → IsLocked m
      → IsLocked (dialog_process_watch P read x m)
  unfolding dialog_process_watch
  dialog_process_watch-IsLocked read x m r k h =
      let x' = (read_dialog P read m x).1 in
      let k' : Kept x' = read_dialog-Kept read m x r k in
      let updated = record m { windows = update_window x.id (λ _. x') m.windows } in
      let h' : IsLocked updated =
        with_windows h (All-update_window Kept x.id (λ _. x') m.windows (λ _ _. k') h.kept) in
      if_elim IsLocked (read_dialog P read m x).0
        (λ _. finish_dialog-IsLocked x'.dialog_response x' updated k'.2 k' h') (λ _. h')
