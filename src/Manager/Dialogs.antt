-- ===== src/Manager/Dialogs.antt =====
-- src/gs-manager.c and src/gs-window.c together: the unlock dialog of a window, whose changes the
-- manager handles as the window emits them.
use xfce4_screensaver.Base.{
  String, str_eq, ℕ, Bool, true, false, not, Option, none, some, List, [], ◌∷◌, map, ◌==◌,
  if◌then◌else◌, ◌&&◌,
}
use mathlib.Core.Option
use xfce4_screensaver.Window
use xfce4_screensaver.Window.{Window, Response, accept, cancel}
use xfce4_screensaver.Window.Dialog
use xfce4_screensaver.Window.Dialog.{
  Line, window_id, notice, response_ok, response_cancel, request_quit, other, Read, line,
  end_of_file, read_error, read_again, hang_up,
}
use xfce4_screensaver.Window.Dialog.{
  Line, window_id, notice, response_ok, response_cancel, request_quit, other, Read, line,
  end_of_file, read_error, read_again, hang_up,
}
use xfce4_screensaver.Window.{Response, accept, cancel}
use xfce4_screensaver.Grab.{Holder, saver_window}
use xfce4_screensaver.Manager.{
  Manager, Platform, auth_request_begin, auth_request_end, find_window, update_window, find_monitor,
  Display,
}
use xfce4_screensaver.Manager.Jobs.{for_jobs, suspend_job, resume_job}

unfoldable pub desensitize : ℕ → Window → Window
desensitize id x = if x.id == id then x else record x { sensitive = false }

unfoldable pub sensitize : Window → Window
sensitize x = record x { sensitive = true }

-- On Wayland the first window that has the focus, and the last window if none has.
unfoldable pub first_active : Display → List Window → Option Window
first_active d [] = none
first_active d (x ∷ []) = some x
first_active d (x ∷ y ∷ xs) =
    let rest = first_active d (y ∷ xs) in if d.is_active x.id then some x else rest

module _ {Grab : Type 0} (P : Platform Grab) where
  -- gs_grab_move_to_window, on X11 only.
  unfoldable pub move_grab : Holder → Bool → Manager Grab → Manager Grab
  move_grab holder no_pointer m = record m {
    grab = Option.map (P.grabs.move_to_window holder no_pointer) m.grab;
  }

  unfoldable pub handle_window_dialog_up : ℕ → Manager Grab → Manager Grab
  unfolding move_grab desensitize
  handle_window_dialog_up id m =
      let up = move_grab (saver_window id) true (record m {
        emitted = auth_request_begin ∷ m.emitted;
        dialog_up = true;
        windows = map (desensitize id) m.windows;
      }) in
      if m.throttled then up else record up { jobs = for_jobs suspend_job up.jobs }

  unfoldable pub handle_window_dialog_down : ℕ → Manager Grab → Manager Grab
  unfolding move_grab sensitize
  handle_window_dialog_down id m =
      let down = record (move_grab (saver_window id) false m) {
        windows = map sensitize m.windows;
        dialog_up = false;
      } in
      let resumed =
        if m.throttled
        then down
        else record down { jobs = for_jobs (resume_job P down) down.jobs } in
      record resumed { emitted = auth_request_end ∷ m.emitted }

  -- popdown_dialog for a window of the table.
  unfoldable pub popdown_window : Window → Manager Grab → Manager Grab
  popdown_window x m =
      let (notify, x') = Dialog.popdown_start x in
      let begun = record m { windows = update_window x.id (λ _. x') m.windows } in
      let notified = if notify then handle_window_dialog_down x.id begun else begun in
      record notified { windows = update_window x.id Dialog.popdown_rest notified.windows }

  unfoldable pub popdown_dialog : ℕ → Manager Grab → Manager Grab
  unfolding popdown_window
  popdown_dialog id m = elim (find_window id m.windows) [ none ↦ m | some x ↦ popdown_window x m ]

  -- gs_window_request_unlock.
  unfoldable pub window_request_unlock : Window → Manager Grab → Manager Grab
  window_request_unlock x m =
      let (notify, x') = Window.set_dialog_up true (Window.add_popup_dialog_idle x) in
      let risen = record m { windows = update_window x.id (λ _. x') m.windows } in
      if not x.visible
      then m
      else if x.lock_watch
      then m
      else if not x.lock_active
      then record m { windows = update_window x.id Window.add_emit_deactivated_idle m.windows }
      else if notify
      then handle_window_dialog_up x.id risen
      else risen

  unfoldable pub find_window_at_pointer : Manager Grab → Option Window
  unfolding first_active
  find_window_at_pointer m =
      if m.display.wayland
      then first_active m.display m.windows
      else find_monitor m.display.pointer_monitor m.windows

  -- gs_manager_request_unlock: whether a window was asked.
  unfoldable pub request_unlock : Manager Grab → Bool × Manager Grab
  request_unlock m =
      if not m.active
      then (false, m)
      else if m.dialog_up
      then (false, m)
      else elim (find_window_at_pointer m) [
        | none ↦ (false, m)
        | some x ↦ (true, window_request_unlock x m)
      ]

  -- gs_manager_show_message: the texts are shown if there is one, and the dialog is asked for.
  unfoldable pub show_message : String → String → String → Manager Grab → Manager Grab
  show_message summary body icon m = elim (find_window_at_pointer m) [
    | none ↦ m
    | some x ↦
        let shown = record m { windows = update_window x.id Window.show_message m.windows } in
        let empty = str_eq summary "" && str_eq body "" && str_eq icon "" in
        (request_unlock (if empty then m else shown)).1
  ]

  -- The end of popup_dialog: the sockets and the process of the dialog.
  unfoldable pub run_dialog : Window → Manager Grab → Window
  run_dialog x m =
      let options = Dialog.dialog_options m.prefs m.display.monitors (P.elapsed x) x in
      let socketed =
        if m.display.wayland
        then Dialog.create_lock_socket true m.prefs P.spawn_keyboard x
        else x in
      Dialog.spawn_dialog (P.spawn_dialog options) socketed

  -- popup_dialog: on Wayland only a window that has the focus may show it.
  unfoldable pub popup_dialog : Window → Manager Grab → Manager Grab
  unfolding popdown_window run_dialog
  popup_dialog x m =
      if m.display.wayland && not (m.display.is_active x.id)
      then popdown_window x m
      else record m { windows = update_window x.id (λ _. run_dialog x m) m.windows }

  -- popup_dialog_idle, when the source runs.
  unfoldable pub popup_dialog_idle : Window → Manager Grab → Manager Grab
  unfolding popup_dialog
  popup_dialog_idle x m =
      let popped = popup_dialog x m in
      record popped {
        windows = update_window x.id (λ y. record y { popup_dialog_idle = false }) popped.windows;
      }

  -- dialog_process_watch: the effect of one line, and whether the dialog is finished.
  unfoldable pub read_dialog_line : Line → Bool → Manager Grab → Window → Bool × Window
  read_dialog_line (window_id (some i)) wayland m x =
      (false, if wayland then x else Dialog.create_lock_socket false m.prefs P.spawn_keyboard x)
  read_dialog_line (window_id none) wayland m x = (false, x)
  read_dialog_line notice wayland m x = (false, x)
  read_dialog_line response_ok wayland m x = (true, record x { dialog_response = accept })
  read_dialog_line response_cancel wayland m x = (true, record x { dialog_response = cancel })
  read_dialog_line request_quit wayland m x = (false, Dialog.kill_dialog_process x)
  read_dialog_line other wayland m x = (false, x)

  unfoldable pub read_dialog : Read → Manager Grab → Window → Bool × Window
  unfolding read_dialog_line
  read_dialog (line text) m x =
      read_dialog_line (Dialog.read_line P.scan_window_id text) m.display.wayland m x
  read_dialog end_of_file m x = (true, x)
  read_dialog read_error m x = (true, x)
  read_dialog hang_up m x = (true, x)
  read_dialog read_again m x = (false, x)

  -- The end of dialog_process_watch: a dialog that accepted asks for deactivation, any other is
  -- taken down. In both cases the watch is gone.
  unfoldable pub finish_dialog : Response → Window → Manager Grab → Manager Grab
  unfolding popdown_window
  finish_dialog accept x m = record m {
    windows =
        update_window x.id (λ y. record (Window.add_emit_deactivated_idle y) { lock_watch = false })
          m.windows;
  }
  finish_dialog cancel x m =
      let popped = popdown_window x m in
      record popped {
        windows = update_window x.id (λ y. record y { lock_watch = false }) popped.windows;
      }

  unfoldable pub dialog_process_watch : Read → Window → Manager Grab → Manager Grab
  unfolding read_dialog finish_dialog
  dialog_process_watch read x m =
      let (finished, x') = read_dialog read m x in
      let updated = record m { windows = update_window x.id (λ _. x') m.windows } in
      if finished then finish_dialog x'.dialog_response x' updated else updated
