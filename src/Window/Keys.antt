-- ===== src/Window/Keys.antt =====
-- The keys that src/gs-window.c queues until the dialog is there.
use xfce4_screensaver.Base.{ℕ, ◌≤◌, List, [], ◌∷◌, arith, length}
use xfce4_screensaver.Window.{Window, queue_key_event, max_queued_events}

abbrev pub queue_all : List ℕ → Window → Window
queue_all [] w = w
queue_all (k ∷ ks) w = queue_all ks (queue_key_event k w)

queue_key_event_bound :
    (k : ℕ) (w : Window)
    → length w.key_events ≤ max_queued_events
    → length (queue_key_event k w).key_events ≤ max_queued_events
unfolding queue_key_event
queue_key_event_bound k w h = ground arith

-- However many keys are pressed, a queue of at most 16 keys keeps at most 16.
pub queue_all_bound :
    (ks : List ℕ) (w : Window)
    → length w.key_events ≤ max_queued_events
    → length (queue_all ks w).key_events ≤ max_queued_events
queue_all_bound [] w h = h
queue_all_bound (k ∷ ks) w h =
    queue_all_bound ks (queue_key_event k w) (queue_key_event_bound k w h)
