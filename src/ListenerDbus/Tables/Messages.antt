-- ===== src/ListenerDbus/Tables/Messages.antt =====
-- Every message leaves the tables of inhibitors and throttlers well-formed
-- (src/gs-listener-dbus.c).
use xfce4_screensaver.Base.{
  ℕ, Bool, true, false, not, Option, if_elim, if◌then◌else◌, option_elim, OnSome-anything, refl,
}
use xfce4_screensaver.ListenerDbus.{World, Handlers, EntryType}
use xfce4_screensaver.ListenerDbus.Activation.{activate_saver, get_hash_for_entry_type}
use xfce4_screensaver.ListenerDbus.Refs.{generate_unique_key}
use xfce4_screensaver.ListenerDbus.Messages.{
  Message, Result, Reply, add_entry_call, remove_entry_call, set_active_call, show_message_call,
  two_strings, one_uint, one_bool, three_strings, new_entry,
}
use xfce4_screensaver.ListenerDbus.Logind.{
  add_sleep_inhibit, remove_sleep_inhibit, prepare_for_sleep, Properties,
}
use xfce4_screensaver.ListenerDbus.Bus.{filter_function, system_filter_function, name_owner_changed}
use xfce4_screensaver.ListenerDbus.Calls.{
  Calls, filter_function-Calls, system_filter_function-Calls,
}
use xfce4_screensaver.ListenerDbus.Tables.{IsWellFormed}
use xfce4_screensaver.ListenerDbus.Tables.Laws.{
  KeepsTables, SameTables, IsWellFormed-same, activate_saver-same,
}
use xfce4_screensaver.ListenerDbus.Tables.Same.{remove_sleep_inhibit-same, add_sleep_inhibit-same}
use xfce4_screensaver.ListenerDbus.Tables.Entries.{
  add_ref_entry-IsWellFormed, remove_ref_entry-IsWellFormed, service_deleted-IsWellFormed,
}

module _ {S : Type 0} (H : Handlers S) (k : KeepsTables H) where
  abbrev K : World S → Type 0
  K w = IsWellFormed w.listener

  add_entry_call-IsWellFormed :
      (kind : EntryType) (m : Message) (w : World S) → K w → K (add_entry_call H kind m w).1
  unfolding add_entry_call new_entry
  add_entry_call-IsWellFormed kind m w h =
      let R = λ (r : Reply × World S). K r.1 in
      option_elim R (λ _. Unit) (two_strings m.args) (OnSome-anything (two_strings m.args)) h
        λ texts _.
          let key = generate_unique_key m.draws (get_hash_for_entry_type kind w.listener) in
          option_elim R (λ _. Unit) key (OnSome-anything key) h
            (λ cookie _.
              add_ref_entry-IsWellFormed H k kind m.answer (new_entry kind m cookie texts) w refl h)

  remove_entry_call-IsWellFormed :
      (kind : EntryType) (m : Message) (w : World S) → K w → K (remove_entry_call H kind m w).1
  unfolding remove_entry_call
  remove_entry_call-IsWellFormed kind m w h =
      option_elim (λ (r : Reply × World S). K r.1) (λ _. Unit) (one_uint m.args)
        (OnSome-anything (one_uint m.args)) h
        (λ cookie _. remove_ref_entry-IsWellFormed H k kind cookie w h)

  -- A handler of a signal that leaves the tables leaves them well-formed.
  kept_by : (w r : World S) → SameTables w.listener r.listener → K w → K r
  kept_by w r e h = IsWellFormed-same w.listener r.listener e h

  show_message_call-IsWellFormed : (m : Message) (w : World S) → K w → K (show_message_call H m w).1
  unfolding show_message_call
  show_message_call-IsWellFormed m w h =
      let R = λ (r : Reply × World S). K r.1 in
      if_elim R (not w.listener.active) (λ _. h)
        λ _.
          option_elim R (λ _. Unit) (three_strings m.args) (OnSome-anything (three_strings m.args))
            h (λ (a, b, c) _. kept_by w (H.show_message a b c w) (k.show a b c w) h)

  set_active_call-IsWellFormed : (m : Message) (w : World S) → K w → K (set_active_call H m w).1
  unfolding set_active_call
  set_active_call-IsWellFormed m w h =
      option_elim (λ (r : Reply × World S). K r.1) (λ _. Unit) (one_bool m.args)
        (OnSome-anything (one_bool m.args)) h
        (λ on _.
          kept_by w (activate_saver H.activator on w).1
            (activate_saver-same H.activator on w (k.active_changed on w)) h)

  name_owner_changed-IsWellFormed :
      (m : Message) (w : World S) → K w → K (name_owner_changed H m w).1
  unfolding name_owner_changed
  name_owner_changed-IsWellFormed m w h =
      option_elim (λ (r : Result × World S). K r.1) (λ _. Unit) (two_strings m.args)
        (OnSome-anything (two_strings m.args)) h
        (λ (name, old_owner) _. service_deleted-IsWellFormed H k old_owner w h)

  prepare_for_sleep-IsWellFormed :
      (on : Bool) (answer : Option ℕ) (w : World S) → K w → K (prepare_for_sleep H on answer w)
  unfolding prepare_for_sleep
  prepare_for_sleep-IsWellFormed true answer w h =
      let locked = if (H.prefs w.rest).sleep_activation_enabled then H.lock w else w in
      let h' : K locked =
        if_elim K (H.prefs w.rest).sleep_activation_enabled (λ _. kept_by w (H.lock w) (k.lock w) h)
          (λ _. h) in
      IsWellFormed-same locked.listener (remove_sleep_inhibit locked.listener)
        (remove_sleep_inhibit-same locked.listener) h'
  prepare_for_sleep-IsWellFormed false answer w h =
      let l = add_sleep_inhibit answer w.listener in
      let w' = record w { listener = l } in
      kept_by w' (H.request_password_prompt w') (k.prompt w')
        (IsWellFormed-same w.listener l (add_sleep_inhibit-same answer w.listener) h)

  calls : Calls H K
  calls = record {
    lock = λ w h. kept_by w (H.lock w) (k.lock w) h;
    cycle = λ w h. kept_by w (H.cycle w) (k.cycle w) h;
    simulate = λ w h. kept_by w (H.simulate_user_activity w) (k.simulate w) h;
    show = show_message_call-IsWellFormed;
    add = add_entry_call-IsWellFormed;
    remove = remove_entry_call-IsWellFormed;
    owner = name_owner_changed-IsWellFormed;
    off_session = λ w h. h;
    off_system = λ w h. h;
    sleep = prepare_for_sleep-IsWellFormed;
  }

  -- Every message on the session bus keeps the tables of inhibitors and throttlers well-formed, if
  -- the handlers of the listener's signals leave them alone: the cookies of each table differ from
  -- each other, each entry is in the table of its kind, and the throttle flag is set exactly while
  -- there is a throttler.
  pub filter_function-IsWellFormed :
      (m : Message) (w : World S)
      → IsWellFormed w.listener
      → IsWellFormed (filter_function H m w).1.listener
  filter_function-IsWellFormed m w h =
      filter_function-Calls H K calls m w (λ _. kept_by w (H.quit w) (k.quit w) h)
        (λ _. set_active_call-IsWellFormed m w h) h

  pub system_filter_function-IsWellFormed :
      (properties : Option Properties) (session_active : Bool) (m : Message) (w : World S)
      → IsWellFormed w.listener
      → IsWellFormed (system_filter_function H properties session_active m w).1.listener
  system_filter_function-IsWellFormed properties session_active m w h =
      system_filter_function-Calls H K calls properties session_active m w
        (λ _.
          kept_by w (activate_saver H.activator false w).1
            (activate_saver-same H.activator false w (k.active_changed false w)) h)
        h
