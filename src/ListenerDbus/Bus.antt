-- ===== src/ListenerDbus/Bus.antt =====
-- src/gs-listener-dbus.c: the connections to the buses, and the messages by the connection that they
-- come over.
use xfce4_screensaver.Base.{
  ℕ, Bool, true, false, ◌&&◌, not, Option, none, some, String, str_eq, if◌then◌else◌,
}
use xfce4_screensaver.ListenerDbus.{ListenerDbus, World, Handlers, new}
use xfce4_screensaver.ListenerDbus.Refs.{service_deleted}
use xfce4_screensaver.ListenerDbus.Messages.{
  Message, Result, handled, aborted, unanswered, confirmed, is_method_call, two_strings,
  handle_session_message,
}
use xfce4_screensaver.ListenerDbus.Logind.{
  is_signal, handle_system_message, Properties, add_sleep_inhibit,
}

-- gs_listener_dbus_dbus_init, with whether each bus can be reached.
unfoldable pub dbus_init : Bool → Bool → ListenerDbus → Bool × ListenerDbus
dbus_init session system l =
    let reached = record l { connection = true } in
    let both = record reached { system_connection = true } in
    if not l.connection && not session
    then (false, l)
    else if not l.system_connection && not system
    then (false, reached)
    else (true, both)

-- reinit_dbus: whether the timeout is to run again.
unfoldable pub reinit_dbus : Bool → Bool → ListenerDbus → Bool × ListenerDbus
unfolding dbus_init
reinit_dbus session system l = let (done, l') = dbus_init session system l in (not done, l')

-- gs_listener_dbus_init, with what query_session_id finds and what logind answers.
unfoldable pub init : Bool → Bool → Bool → Option String × Option String → Option ℕ → ListenerDbus
unfolding new dbus_init add_sleep_inhibit
init have_logind session system ids answer =
    let (_, reached) = dbus_init session system (record new { have_logind = have_logind }) in
    add_sleep_inhibit answer (record reached { session_id = ids.0; session_path = ids.1 })

-- What gs_listener_dbus_acquire asks of the bus.
pub record BusAnswers : Type 0 where
  pub is_connected : Bool
  pub has_owner : Bool
  pub registered : Bool
  pub name_exists : Bool
  pub name_failed : Bool

-- Whether the name was acquired.
unfoldable pub acquire : BusAnswers → ListenerDbus → Bool
acquire a l =
    if not l.connection
    then false
    else if not a.is_connected
    then false
    else if a.has_owner
    then false
    else if not a.registered
    then false
    else if a.name_exists
    then false
    else not a.name_failed

is_local_path : Option String → Bool
is_local_path none = false
is_local_path (some path) = str_eq path "/org/freedesktop/DBus/Local"

unfoldable pub is_disconnect : Message → Bool
unfolding is_local_path is_signal
is_disconnect m = is_signal "org.freedesktop.DBus.Local" "Disconnected" m && is_local_path m.path

module _ {S : Type 0} (H : Handlers S) where
  -- gs_listener_dbus_message_handler, for messages to the object's path.
  unfoldable pub message_handler : Message → World S → Result × World S
  unfolding is_disconnect
  message_handler m w =
      if is_method_call "org.freedesktop.DBus" "AddMatch" m
      then (handled confirmed, w)
      else if is_disconnect m
      then (handled unanswered, w)
      else handle_session_message H m w

  unfoldable pub name_owner_changed : Message → World S → Result × World S
  name_owner_changed m w = elim (two_strings m.args) [
    | none ↦ (aborted, w)
    | some (name, old_owner) ↦ (handled unanswered, service_deleted H old_owner w)
  ]

  -- listener_dbus_filter_function, for messages on the session bus.
  unfoldable pub filter_function : Message → World S → Result × World S
  unfolding is_disconnect name_owner_changed
  filter_function m w =
      if is_disconnect m
      then (handled unanswered, record w { listener = record w.listener { connection = false } })
      else if is_signal "org.freedesktop.DBus" "NameOwnerChanged" m
      then name_owner_changed m w
      else handle_session_message H m w

  -- listener_dbus_system_filter_function: a message is handled whatever becomes of it, unless it
  -- goes to the handler.
  unfoldable pub system_filter_function :
      Option Properties → Bool → Message → World S → Result × World S
  unfolding is_disconnect
  system_filter_function properties session_active m w =
      if is_disconnect m
      then (
        handled unanswered,
        record w { listener = record w.listener { system_connection = false } },
      )
      else handle_system_message H properties session_active m w
