-- ===== src/SessionLock/Protocol.antt =====
-- The requests that src/gs-session-lock-manager.c sends, against the protocol ext-session-lock-v1: a
-- lock object that was told `locked` is ended by `unlock_and_destroy`, and one that was not by
-- `destroy`. The compositor says nothing after `finished`.
use xfce4_screensaver.Base.{◌≡◌, Bool, true, false, ◌||◌, List, [], ◌∷◌, arith, if◌then◌else◌, refl}
use xfce4_screensaver.SessionLock.{
  SessionLock, Request, unlock_and_destroy, destroy, LockEvent, locked_event, finished_event,
  handle, lock, unlock, lock_locked, lock_finished,
}

abbrev pub is_locked : List LockEvent → Bool
is_locked [] = false
is_locked (locked_event ∷ events) = true
is_locked (finished_event ∷ events) = is_locked events

abbrev pub is_finished : List LockEvent → Bool
is_finished [] = false
is_finished (locked_event ∷ events) = is_finished events
is_finished (finished_event ∷ events) = true

-- Nothing follows `finished`.
abbrev pub IsProtocol : List LockEvent → Type 0
IsProtocol [] = Unit
IsProtocol (locked_event ∷ events) = IsProtocol events
IsProtocol (finished_event ∷ events) = events ≡ []

-- The request that the protocol wants for a lock object that was told `locked`, or was not.
abbrev pub ending : Bool → Request
ending told = if told then unlock_and_destroy else destroy

abbrev pub given_up : Bool → SessionLock → SessionLock
given_up told m = record {
  wl_lock = false;
  locked = false;
  lock_surfaces = [];
  requests = ending told ∷ m.requests;
}

handle_events :
    (events : List LockEvent) (m : SessionLock)
    → IsProtocol events
    → m.wl_lock ≡ true
    → handle events m ≡ (
        if is_finished events
        then given_up (m.locked || is_locked events) m
        else record m { locked = m.locked || is_locked events })
unfolding handle lock_locked lock_finished unlock
handle_events [] m p on = ground arith
handle_events (locked_event ∷ events) m p on =
    let rest = handle_events events (record m { locked = true }) p on in ground arith
handle_events (finished_event ∷ []) m p on = ground arith
handle_events (finished_event ∷ e ∷ events) m p on = absurd (ground arith)

-- A request for a lock, while there is no lock object, fails exactly if the compositor finishes the
-- lock in the round trip; the object is then ended by the request that the protocol wants and
-- nothing is left of it. Otherwise the lock is kept, with what the compositor said of it.
pub lock_protocol :
    (events : List LockEvent) (m : SessionLock)
    → IsProtocol events
    → m.wl_lock ≡ false
    → m.locked ≡ false
    → lock events m ≡ (
        if is_finished events
        then (false, given_up (is_locked events) m)
        else (true, record m { wl_lock = true; locked = is_locked events }))
unfolding lock
lock_protocol events m p off unlocked =
    let sent = handle_events events (record m { wl_lock = true }) p refl in ground arith

-- A lock that was granted is ended by the request that the protocol wants: `unlock_and_destroy` if
-- the compositor said `locked`, and else `destroy`.
pub unlock-lock :
    (events : List LockEvent) (m : SessionLock)
    → IsProtocol events
    → is_finished events ≡ false
    → m.wl_lock ≡ false
    → m.locked ≡ false
    → unlock (lock events m).1 ≡ given_up (is_locked events) m
unfolding unlock
unlock-lock events m p kept off unlocked =
    let sent = lock_protocol events m p off unlocked in ground arith
