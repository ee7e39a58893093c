-- ===== src/ListenerDbus/Logind.antt =====
-- src/gs-listener-dbus.c: the signals of logind on the system bus, and the delay of the sleep. What
-- the bus and libsystemd answer are parameters.
use xfce4_screensaver.Base.{
  ℕ, Bool, true, false, ◌&&◌, ◌||◌, not, Option, none, some, List, [], ◌∷◌, String, str_eq,
  if◌then◌else◌,
}
use xfce4_screensaver.Base.Int.{pos, ltb_ℤ}
use xfce4_screensaver.ListenerDbus.{ListenerDbus, World, Handlers}
use xfce4_screensaver.ListenerDbus.Activation.{activate_saver}
use xfce4_screensaver.ListenerDbus.Messages.{
  Message, Result, handled, not_yet_handled, unanswered, one_bool,
}

unfoldable pub is_signal : String → String → Message → Bool
is_signal interface member m =
    m.is_signal
    && (elim m.interface [ none ↦ false | some i ↦ str_eq i interface ])
    && str_eq m.member member

unfoldable pub path_is_our_session : ListenerDbus → Message → Bool
path_is_our_session l m = elim m.path [
  | none ↦ false
  | some path ↦ elim l.session_path [ none ↦ false | some ours ↦ str_eq path ours ]
]

-- add_sleep_inhibit: a descriptor that the reply brings is stored.
unfoldable pub add_sleep_inhibit : Option ℕ → ListenerDbus → ListenerDbus
add_sleep_inhibit answer l =
    if not l.system_connection
    then l
    else elim answer [ none ↦ l | some fd ↦ record l { sleep_inhibitor = pos fd } ]

unfoldable pub remove_sleep_inhibit : ListenerDbus → ListenerDbus
remove_sleep_inhibit l =
    if ltb_ℤ l.sleep_inhibitor (pos 0)
    then l
    else record l { closed = l.sleep_inhibitor ∷ l.closed }

-- What a PropertiesChanged signal lists: the names of the changed and of the invalidated properties,
-- each list up to an element that is not as expected, if there is one.
pub record Properties : Type 0 where
  pub changed : List String
  pub changed_ok : Bool
  pub invalidated : List String
  pub invalidated_ok : Bool

unfoldable pub mentions : String → List String → Bool
mentions property [] = false
mentions property (name ∷ names) = str_eq name property || mentions property names

-- properties_changed_match, where the two arrays are there.
unfoldable pub properties_changed_match : Properties → String → Bool
unfolding mentions
properties_changed_match p property =
    mentions property p.changed || (p.changed_ok && mentions property p.invalidated)

unfoldable pub active_changed_match : Option Properties → Bool
unfolding properties_changed_match
active_changed_match none = false
active_changed_match (some p) = properties_changed_match p "Active"

-- dbus_message_get_args leaves the flag FALSE when the signal has no boolean.
unfoldable pub sleep_flag : Message → Bool
sleep_flag m = elim (one_bool m.args) [ none ↦ false | some on ↦ on ]

module _ {S : Type 0} (H : Handlers S) where
  on_listener : (ListenerDbus → ListenerDbus) → World S → World S
  on_listener f w = record w { listener = f w.listener }

  unfoldable pub prepare_for_sleep : Bool → Option ℕ → World S → World S
  unfolding on_listener add_sleep_inhibit remove_sleep_inhibit
  prepare_for_sleep true answer w =
      on_listener remove_sleep_inhibit
        (if (H.prefs w.rest).sleep_activation_enabled then H.lock w else w)
  prepare_for_sleep false answer w =
      H.request_password_prompt (on_listener (add_sleep_inhibit answer) w)

  -- listener_dbus_handle_system_message, with the properties that a PropertiesChanged signal has, if
  -- it can be decoded, and whether the session is active.
  unfoldable pub handle_system_message :
      Option Properties → Bool → Message → World S → Result × World S
  unfolding is_signal path_is_our_session sleep_flag prepare_for_sleep active_changed_match
  handle_system_message properties session_active m w =
      let ours = path_is_our_session w.listener m in
      let listed = active_changed_match properties in
      if not w.listener.have_logind
      then (not_yet_handled, w)
      else if is_signal "org.freedesktop.login1.Session" "Unlock" m
      then (handled unanswered, if ours then (activate_saver H.activator false w).1 else w)
      else if is_signal "org.freedesktop.login1.Session" "Lock" m
      then (handled unanswered, if ours then H.lock w else w)
      else if is_signal "org.freedesktop.login1.Manager" "PrepareForSleep" m
      then (handled unanswered, prepare_for_sleep (sleep_flag m) m.answer w)
      else if is_signal "org.freedesktop.DBus.Properties" "PropertiesChanged" m
      then (
        handled unanswered,
        if ours && listed && session_active then H.simulate_user_activity w else w,
      )
      else (not_yet_handled, w)
