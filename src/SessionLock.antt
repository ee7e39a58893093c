-- ===== src/SessionLock.antt =====
-- src/gs-session-lock-manager.c: the session lock of a Wayland compositor. The events that the
-- compositor sends while a request makes its round trip are a parameter.
pub mod Protocol
use xfce4_screensaver.Base.{ℕ, Bool, true, false, List, [], ◌∷◌, ◌==◌, if◌then◌else◌}

-- A request that ends a lock object.
pub data Request : Type 0 where
  unlock_and_destroy destroy : Request

-- _GSSessionLockManager, and the requests that it sent, newest first. `lock_surfaces` holds the
-- windows that have a surface.
pub record SessionLock : Type 0 where
  pub wl_lock : Bool
  pub locked : Bool
  pub lock_surfaces : List ℕ
  pub requests : List Request

-- What the compositor sends to a lock object.
pub data LockEvent : Type 0 where
  locked_event finished_event : LockEvent

unfoldable pub lock_locked : SessionLock → SessionLock
lock_locked m = record m { locked = true }

unfoldable pub unlock : SessionLock → SessionLock
unlock m =
    let request = if m.locked then unlock_and_destroy else destroy in
    if m.wl_lock
    then record {
      wl_lock = false;
      locked = false;
      lock_surfaces = [];
      requests = request ∷ m.requests;
    }
    else m

unfoldable pub lock_finished : SessionLock → SessionLock
unfolding unlock
lock_finished m = unlock m

unfoldable pub handle : List LockEvent → SessionLock → SessionLock
unfolding lock_locked lock_finished
handle [] m = m
handle (locked_event ∷ events) m = handle events (lock_locked m)
handle (finished_event ∷ events) m = handle events (lock_finished m)

-- gs_session_lock_manager_lock: the round trip may bring events, and a lock that the compositor
-- has finished is gone.
unfoldable pub lock : List LockEvent → SessionLock → Bool × SessionLock
unfolding handle
lock events m =
    let sent = handle events (record m { wl_lock = true }) in
    if m.wl_lock then (false, m) else (sent.wl_lock, sent)

remove_id : ℕ → List ℕ → List ℕ
remove_id id [] = []
remove_id id (x ∷ xs) = let rest = remove_id id xs in if x == id then rest else x ∷ rest

unfoldable pub window_realized : ℕ → SessionLock → SessionLock
unfolding remove_id
window_realized id m = record m { lock_surfaces = id ∷ remove_id id m.lock_surfaces }

-- gs_session_lock_manager_add_window: a window gets its surface when it is realized, if there was a
-- lock when it was added.
unfoldable pub add_window : ℕ → SessionLock → SessionLock
unfolding window_realized
add_window id m = if m.wl_lock then window_realized id m else m

unfoldable pub remove_window : ℕ → SessionLock → SessionLock
unfolding remove_id
remove_window id m =
    if m.wl_lock then record m { lock_surfaces = remove_id id m.lock_surfaces } else m
