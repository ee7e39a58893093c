-- ===== src/ListenerDbus.antt =====
-- src/gs-listener-dbus.c: the listener on the message buses, in a build with logind. It keeps the
-- inhibitors and the throttlers that clients ask for, and whether the screen saver is active, and it
-- turns messages into signals. The handlers of its signals belong to the monitor; they are a record
-- of operations on the listener and on a state of the handlers' own.
pub mod Refs
pub mod Activation
pub mod Messages
pub mod Logind
pub mod Bus
pub mod Calls
pub mod Keeps
pub mod Tables
use xfce4_screensaver.Base.{ℕ, Bool, true, false, Option, none, some, List, [], ◌∷◌, String}
use xfce4_screensaver.Base.Int.{ℤ, pos}
use xfce4_screensaver.Prefs.{Prefs}

-- REF_ENTRY_TYPE_INHIBIT and REF_ENTRY_TYPE_THROTTLE.
pub data EntryType : Type 0 where
  inhibit throttle : EntryType

-- GSListenerDBusRefEntry. The time of its creation is kept as the text that is shown.
pub record RefEntry : Type 0 where
  pub entry_type : EntryType
  pub application : String
  pub reason : String
  pub connection : Option String
  pub cookie : ℕ
  pub fd : ℤ
  pub since : String

-- GSListenerDBusPrivate. A connection is `true` when there is one. Ghost fields: `changes` has the
-- values of the ActiveChanged signals sent on the session bus and `closed` the descriptors that were
-- closed, newest first.
pub record ListenerDbus : Type 0 where
  pub connection : Bool
  pub system_connection : Bool
  pub session_idle : Bool
  pub active : Bool
  pub throttled : Bool
  pub inhibitors : List RefEntry
  pub throttlers : List RefEntry
  pub active_start : ℕ
  pub session_id : Option String
  pub session_path : Option String
  pub have_logind : Bool
  pub sleep_inhibitor : ℤ
  pub changes : List Bool
  pub closed : List ℤ

-- The listener and the state of those who handle its signals.
pub record World (S : Type 0) : Type 0 where
  pub listener : ListenerDbus
  pub rest : S

-- The handler of "active-changed", which returns whether the change was made, and the time in seconds.
pub record Activator (S : Type 0) : Type 0 where
  pub active_changed : Bool → World S → Bool × World S
  pub time : S → ℕ

-- The handlers of the signals, with the settings.
pub record Handlers (S : Type 0) : Type 0 where
  pub lock : World S → World S
  pub quit : World S → World S
  pub cycle : World S → World S
  pub simulate_user_activity : World S → World S
  pub request_password_prompt : World S → World S
  pub activator : Activator S
  pub throttle_changed : Bool → World S → World S
  pub show_message : String → String → String → World S → World S
  pub prefs : S → Prefs

-- A new object is zero; the buses and the session are set up in gs_listener_dbus_init.
unfoldable pub new : ListenerDbus
new = record {
  connection = false;
  system_connection = false;
  session_idle = false;
  active = false;
  throttled = false;
  inhibitors = [];
  throttlers = [];
  active_start = 0;
  session_id = none;
  session_path = none;
  have_logind = false;
  sleep_inhibitor = pos 0;
  changes = [];
  closed = [];
}
