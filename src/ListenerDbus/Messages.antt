-- ===== src/ListenerDbus/Messages.antt =====
-- src/gs-listener-dbus.c: the method calls on the session bus. How libdbus matches a message and
-- reads its arguments is its documented behaviour: a call without an interface matches any, and
-- arguments after those asked for are ignored.
use xfce4_screensaver.Base.{
  ℕ, ◌-◌, ◌%◌, ◌^◌, Bool, true, ◌&&◌, not, Option, none, some, List, ◌∷◌, String, ltb, ◌==◌, str_eq,
  if◌then◌else◌,
}
use xfce4_screensaver.Base.Int.{pos}
use xfce4_screensaver.ListenerDbus.{
  ListenerDbus, RefEntry, World, Handlers, EntryType, inhibit, throttle,
}
use xfce4_screensaver.ListenerDbus.Activation.{activate_saver, get_hash_for_entry_type}
use xfce4_screensaver.ListenerDbus.Refs.{
  add_ref_entry, remove_ref_entry, generate_unique_key, get_ref_entries,
}

pub data Arg : Type 0 where
  string_arg : String → Arg
  uint_arg : ℕ → Arg
  bool_arg : Bool → Arg
  other_arg : Arg

-- A message, and what comes with it from outside: the random numbers drawn for it, what logind
-- answers to a request for an inhibitor lock, and the time as text.
pub record Message : Type 0 where
  pub is_signal : Bool
  pub path : Option String
  pub interface : Option String
  pub member : String
  pub sender : Option String
  pub args : List Arg
  pub draws : List ℕ
  pub answer : Option ℕ
  pub now : String

-- What the daemon answers. A call whose cookie is still being drawn has no answer yet.
pub data Reply : Type 0 where
  confirmed type_mismatch introspected unanswered : Reply
  syntax_error : String → Reply
  cookie_reply seconds : ℕ → Reply
  entries : List String → Reply
  boolean : Bool → Reply

-- DBusHandlerResult, with the reply that was sent. `aborted` is a call of g_error.
pub data Result : Type 0 where
  handled : Reply → Result
  not_yet_handled aborted : Result

abbrev pub service : String
service = "org.xfce.ScreenSaver"

unfoldable pub is_interface : String → Option String → Bool
is_interface name none = true
is_interface name (some i) = str_eq i name

unfoldable pub is_method_call : String → String → Message → Bool
unfolding is_interface
is_method_call interface member m =
    not m.is_signal && is_interface interface m.interface && str_eq m.member member

unfoldable pub two_strings : List Arg → Option (String × String)
two_strings (string_arg a ∷ string_arg b ∷ _) = some (a, b)
two_strings _ = none

unfoldable pub three_strings : List Arg → Option (String × String × String)
three_strings (string_arg a ∷ string_arg b ∷ string_arg c ∷ _) = some (a, b, c)
three_strings _ = none

unfoldable pub one_uint : List Arg → Option ℕ
one_uint (uint_arg n ∷ _) = some n
one_uint _ = none

unfoldable pub one_bool : List Arg → Option Bool
one_bool (bool_arg b ∷ _) = some b
one_bool _ = none

unfoldable pub add_name : EntryType → String
add_name inhibit = "Inhibit"
add_name throttle = "Throttle"

unfoldable pub remove_name : EntryType → String
remove_name inhibit = "UnInhibit"
remove_name throttle = "UnThrottle"

-- listener_get_active_time.
unfoldable pub active_time : ℕ → ListenerDbus → ℕ
active_time now l =
    if not l.active
    then 0
    else if ltb now l.active_start
    then 0
    else if l.active_start == 0
    then 0
    else (now - l.active_start) % 2 ^ 32

-- g_new0 and the assignments of listener_dbus_add_ref_entry.
unfoldable pub new_entry : EntryType → Message → ℕ → String × String → RefEntry
new_entry kind m cookie (application, reason) = record {
  entry_type = kind;
  application = application;
  reason = reason;
  connection = m.sender;
  cookie = cookie;
  fd = pos 0;
  since = m.now;
}

module _ {S : Type 0} (H : Handlers S) where
  unfoldable pub add_entry_call : EntryType → Message → World S → Reply × World S
  unfolding two_strings add_name new_entry
  add_entry_call kind m w = elim (two_strings m.args) [
    | none ↦ (syntax_error (add_name kind), w)
    | some texts ↦ elim (generate_unique_key m.draws (get_hash_for_entry_type kind w.listener)) [
      | none ↦ (unanswered, w)
      | some cookie ↦
          (cookie_reply cookie, add_ref_entry H kind m.answer (new_entry kind m cookie texts) w)
    ]
  ]

  unfoldable pub remove_entry_call : EntryType → Message → World S → Reply × World S
  unfolding one_uint remove_name
  remove_entry_call kind m w = elim (one_uint m.args) [
    | none ↦ (syntax_error (remove_name kind), w)
    | some cookie ↦ (confirmed, (remove_ref_entry H kind cookie w).1)
  ]

  unfoldable pub set_active_call : Message → World S → Reply × World S
  unfolding one_bool
  set_active_call m w = elim (one_bool m.args) [
    | none ↦ (type_mismatch, w)
    | some on ↦ (confirmed, (activate_saver H.activator on w).1)
  ]

  unfoldable pub show_message_call : Message → World S → Reply × World S
  unfolding three_strings
  show_message_call m w =
      if not w.listener.active then (confirmed, w) else elim (three_strings m.args) [
        | none ↦ (syntax_error "ShowMessage", w)
        | some (summary, body, icon) ↦ (confirmed, H.show_message summary body icon w)
      ]

  unfoldable pub answered : Reply × World S → Result × World S
  answered (reply, w) = (handled reply, w)

  -- listener_dbus_handle_session_message.
  unfoldable pub handle_session_message : Message → World S → Result × World S
  unfolding is_method_call answered add_entry_call remove_entry_call set_active_call
      show_message_call active_time
  handle_session_message m w =
      if is_method_call service "Lock" m
      then (handled confirmed, H.lock w)
      else if is_method_call service "Quit" m
      then (handled confirmed, H.quit w)
      else if is_method_call service "Cycle" m
      then (handled confirmed, H.cycle w)
      else if is_method_call service "Inhibit" m
      then answered (add_entry_call inhibit m w)
      else if is_method_call service "UnInhibit" m
      then answered (remove_entry_call inhibit m w)
      else if is_method_call service "GetInhibitors" m
      then (handled (entries (get_ref_entries inhibit w.listener)), w)
      else if is_method_call service "Throttle" m
      then answered (add_entry_call throttle m w)
      else if is_method_call service "UnThrottle" m
      then answered (remove_entry_call throttle m w)
      else if is_method_call service "SetActive" m
      then answered (set_active_call m w)
      else if is_method_call service "GetActive" m
      then (handled (boolean w.listener.active), w)
      else if is_method_call service "GetActiveTime" m
      then (handled (seconds (active_time (H.activator.time w.rest) w.listener)), w)
      else if is_method_call service "ShowMessage" m
      then answered (show_message_call m w)
      else if is_method_call service "SimulateUserActivity" m
      then (handled confirmed, H.simulate_user_activity w)
      else if is_method_call "org.freedesktop.DBus.Introspectable" "Introspect" m
      then (handled introspected, w)
      else (not_yet_handled, w)
