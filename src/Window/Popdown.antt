-- ===== src/Window/Popdown.antt =====
-- The end of an unlock dialog (src/gs-window.c): its processes, its sockets and its queue.
use xfce4_screensaver.Base.{ℕ, ◌≡◌, false, List, [], ◌∷◌, arith, if◌then◌else◌, ltb}
use xfce4_screensaver.Job.{Call, waited, kill, sigterm}
use xfce4_screensaver.Window.{Window}
use xfce4_screensaver.Window.Dialog.{popdown_start, popdown_rest}

-- popdown_dialog, without the handler of its notification.
abbrev pub popdown : Window → Window
popdown w = popdown_rest (popdown_start w).1

-- The calls that end a child, if there is one: it is told to end, and then waited for.
abbrev pub ended : ℕ → List Call → List Call
ended pid calls = if ltb 0 pid then waited pid ∷ kill pid sigterm ∷ calls else calls

-- Taking a dialog down leaves the window without dialog, child, watch, lock socket, queued keys and
-- pending dialog, and ends the keyboard and then the dialog: each child is told to end and waited
-- for.
pub popdown_clears :
    (w : Window)
    → ((popdown w).dialog_up ≡ false)
      × ((popdown w).lock_pid ≡ 0)
      × ((popdown w).keyboard_pid ≡ 0)
      × ((popdown w).lock_watch ≡ false)
      × ((popdown w).keyboard_watch ≡ false)
      × ((popdown w).lock_socket ≡ false)
      × ((popdown w).popup_dialog_idle ≡ false)
      × ((popdown w).key_events ≡ [])
      × ((popdown w).calls ≡ ended w.lock_pid (ended w.keyboard_pid w.calls))
unfolding popdown_start popdown_rest
popdown_clears w = ground arith
