-- ===== src/ListenerDbus/Calls.antt =====
-- A property that each operation of the listener keeps is kept by every message, by the branches of
-- the two filter functions (src/gs-listener-dbus.c).
use xfce4_screensaver.Base.{ℕ, ◌≡◌, Bool, true, false, not, ◌&&◌, Option, if_elim}
use xfce4_screensaver.ListenerDbus.{World, Handlers, EntryType, inhibit, throttle}
use xfce4_screensaver.ListenerDbus.Activation.{activate_saver}
use xfce4_screensaver.ListenerDbus.Messages.{
  Message, Result, handle_session_message, is_method_call, service, add_entry_call,
  remove_entry_call, set_active_call, show_message_call, answered,
}
use xfce4_screensaver.ListenerDbus.Bus.{
  system_filter_function, filter_function, is_disconnect, name_owner_changed,
}
use xfce4_screensaver.ListenerDbus.Logind.{
  is_signal, Properties, prepare_for_sleep, handle_system_message, path_is_our_session,
  active_changed_match, sleep_flag,
}

-- What the property has to be kept by: the operations that messages lead to, other than Quit,
-- SetActive and Unlock.
pub record Calls {S : Type 0} (H : Handlers S) (K : World S → Type 0) : Type 0 where
  pub lock : (w : World S) → K w → K (H.lock w)
  pub cycle : (w : World S) → K w → K (H.cycle w)
  pub simulate : (w : World S) → K w → K (H.simulate_user_activity w)
  pub show : (m : Message) (w : World S) → K w → K (show_message_call H m w).1
  pub add : (kind : EntryType) (m : Message) (w : World S) → K w → K (add_entry_call H kind m w).1
  pub remove :
      (kind : EntryType) (m : Message) (w : World S) → K w → K (remove_entry_call H kind m w).1
  pub owner : (m : Message) (w : World S) → K w → K (name_owner_changed H m w).1
  pub off_session :
      (w : World S) → K w → K (record w { listener = record w.listener { connection = false } })
  pub off_system :
      (w : World S)
      → K w
      → K (record w { listener = record w.listener { system_connection = false } })
  pub sleep :
      (on : Bool) (answer : Option ℕ) (w : World S) → K w → K (prepare_for_sleep H on answer w)

module _ {S : Type 0} (H : Handlers S) (K : World S → Type 0) (k : Calls H K) where
  -- A session message keeps the property, if that is known where it is Quit or SetActive.
  pub handle_session_message-Calls :
      (m : Message) (w : World S)
      → (is_method_call service "Quit" m ≡ true → K (H.quit w))
      → (is_method_call service "SetActive" m ≡ true → K (set_active_call H m w).1)
      → K w
      → K (handle_session_message H m w).1
  unfolding handle_session_message answered
  handle_session_message-Calls m w on_quit on_set h =
      let R = λ (r : Result × World S). K r.1 in
      if_elim R (is_method_call service "Lock" m) (λ _. k.lock w h)
        λ _. if_elim R (is_method_call service "Quit" m) on_quit λ _.
          if_elim R (is_method_call service "Cycle" m) (λ _. k.cycle w h)
            λ _.
              if_elim R (is_method_call service "Inhibit" m) (λ _. k.add inhibit m w h)
                λ _.
                  if_elim R (is_method_call service "UnInhibit" m) (λ _. k.remove inhibit m w h)
                    λ _.
                      if_elim R (is_method_call service "GetInhibitors" m) (λ _. h)
                        λ _.
                          if_elim R (is_method_call service "Throttle" m)
                            (λ _. k.add throttle m w h)
                            λ _.
                              if_elim R (is_method_call service "UnThrottle" m)
                                (λ _. k.remove throttle m w h)
                                λ _. if_elim R (is_method_call service "SetActive" m) on_set λ _.
                                  if_elim R (is_method_call service "GetActive" m) (λ _. h)
                                    λ _.
                                      if_elim R (is_method_call service "GetActiveTime" m) (λ _. h)
                                        λ _.
                                          if_elim R (is_method_call service "ShowMessage" m)
                                            (λ _. k.show m w h)
                                            λ _.
                                              if_elim R
                                                (is_method_call service "SimulateUserActivity" m)
                                                (λ _. k.simulate w h)
                                                λ _.
                                                  if_elim R
                                                    (is_method_call
                                                      "org.freedesktop.DBus.Introspectable"
                                                      "Introspect" m)
                                                    (λ _. h) (λ _. h)

  pub filter_function-Calls :
      (m : Message) (w : World S)
      → (is_method_call service "Quit" m ≡ true → K (H.quit w))
      → (is_method_call service "SetActive" m ≡ true → K (set_active_call H m w).1)
      → K w
      → K (filter_function H m w).1
  unfolding filter_function
  filter_function-Calls m w on_quit on_set h =
      let R = λ (r : Result × World S). K r.1 in
      if_elim R (is_disconnect m) (λ _. k.off_session w h)
        λ _.
          if_elim R (is_signal "org.freedesktop.DBus" "NameOwnerChanged" m) (λ _. k.owner m w h)
            (λ _. handle_session_message-Calls m w on_quit on_set h)

  -- A system message keeps the property, if that is known where logind asks for an unlock.
  pub system_filter_function-Calls :
      (properties : Option Properties) (session_active : Bool) (m : Message) (w : World S)
      → (is_signal "org.freedesktop.login1.Session" "Unlock" m ≡ true
          → K (activate_saver H.activator false w).1)
      → K w
      → K (system_filter_function H properties session_active m w).1
  unfolding system_filter_function handle_system_message
  system_filter_function-Calls properties session_active m w on_unlock h =
      let R = λ (r : Result × World S). K r.1 in
      let ours = path_is_our_session w.listener m in
      let listed = active_changed_match properties in
      if_elim R (is_disconnect m) (λ _. k.off_system w h)
        λ _.
          if_elim R (not w.listener.have_logind) (λ _. h)
            λ _.
              if_elim R (is_signal "org.freedesktop.login1.Session" "Unlock" m)
                (λ e. if_elim K ours (λ _. on_unlock e) (λ _. h))
                λ _.
                  if_elim R (is_signal "org.freedesktop.login1.Session" "Lock" m)
                    (λ _. if_elim K ours (λ _. k.lock w h) (λ _. h))
                    λ _.
                      if_elim R (is_signal "org.freedesktop.login1.Manager" "PrepareForSleep" m)
                        (λ _. k.sleep (sleep_flag m) m.answer w h)
                        λ _.
                          if_elim R
                            (is_signal "org.freedesktop.DBus.Properties" "PropertiesChanged" m)
                            (λ _.
                              if_elim K (ours && listed && session_active) (λ _. k.simulate w h)
                                (λ _. h))
                            (λ _. h)
