-- ===== src/ListenerDbus/Keeps.antt =====
-- A property that the handlers of the signals keep is kept by every message
-- (src/gs-listener-dbus.c).
use xfce4_screensaver.Base.{
  ℕ, ◌≡◌, Bool, true, false, not, ◌||◌, Option, List, [], ◌∷◌, String, if_elim, if◌then◌else◌,
  option_elim, OnSome-anything, refl, arith, ◌∙◌,
}
use xfce4_screensaver.ListenerDbus.{
  ListenerDbus, RefEntry, World, Handlers, EntryType, inhibit, throttle,
}
use xfce4_screensaver.ListenerDbus.Activation.{
  activate_saver, is_inhibited, check_activation, set_throttle, check_throttle, ref_entry_check,
  same, listener_ref_entry_is_present, get_hash_for_entry_type,
}
use xfce4_screensaver.ListenerDbus.Refs.{
  add_ref_entry, remove_ref_entry, set_hash, insert, proxied, lookup, remove, remove_inhibit_of,
  remove_session_inhibit, remove_for_connection, removed_for, service_deleted, remove_inhibits,
  without, has_any, generate_unique_key,
}
use xfce4_screensaver.ListenerDbus.Messages.{
  Message, Result, Reply, is_method_call, service, add_entry_call, remove_entry_call,
  set_active_call, show_message_call, two_strings, one_uint, three_strings, new_entry,
}
use xfce4_screensaver.ListenerDbus.Bus.{system_filter_function, filter_function, name_owner_changed}
use xfce4_screensaver.ListenerDbus.Logind.{
  is_signal, Properties, remove_sleep_inhibit, add_sleep_inhibit, prepare_for_sleep,
}
use xfce4_screensaver.ListenerDbus.Calls.{
  Calls, filter_function-Calls, system_filter_function-Calls,
}

-- What a property has to be kept by: the handlers that a message may call without asking for a
-- deactivation, and changes of the listener that leave its active flag.
pub record Keeps {S : Type 0} (H : Handlers S) (K : World S → Type 0) : Type 0 where
  pub listener :
      (w : World S) (l : ListenerDbus)
      → l.active ≡ w.listener.active
      → K w
      → K (record w { listener = l })
  pub lock : (w : World S) → K w → K (H.lock w)
  pub cycle : (w : World S) → K w → K (H.cycle w)
  pub simulate : (w : World S) → K w → K (H.simulate_user_activity w)
  pub prompt : (w : World S) → K w → K (H.request_password_prompt w)
  pub show : (a b c : String) (w : World S) → K w → K (H.show_message a b c w)
  pub throttle : (on : Bool) (w : World S) → K w → K (H.throttle_changed on w)
  pub activate : (w : World S) → K w → K (activate_saver H.activator true w).1

active-set_hash :
    (kind : EntryType) (es : List RefEntry) (l : ListenerDbus)
    → (set_hash kind es l).active ≡ l.active
unfolding set_hash
active-set_hash inhibit es l = refl
active-set_hash throttle es l = refl

active-remove_inhibit_of :
    (kind : EntryType) (e : RefEntry) (l : ListenerDbus)
    → (remove_inhibit_of kind e l).active ≡ l.active
unfolding remove_inhibit_of remove_session_inhibit
active-remove_inhibit_of inhibit e l = ground arith
active-remove_inhibit_of throttle e l = refl

active-remove_inhibits :
    (name : String) (es : List RefEntry) (l : ListenerDbus)
    → (remove_inhibits name es l).active ≡ l.active
unfolding remove_inhibits
active-remove_inhibits name [] l = refl
active-remove_inhibits name (e ∷ es) l =
    let rest = active-remove_inhibits name es l in
    let rest' = active-remove_inhibits name es (remove_inhibit_of e.entry_type e l) in
    let one = active-remove_inhibit_of e.entry_type e l in ground arith

active-remove_sleep_inhibit : (l : ListenerDbus) → (remove_sleep_inhibit l).active ≡ l.active
unfolding remove_sleep_inhibit
active-remove_sleep_inhibit l = ground arith

active-add_sleep_inhibit :
    (answer : Option ℕ) (l : ListenerDbus) → (add_sleep_inhibit answer l).active ≡ l.active
unfolding add_sleep_inhibit
active-add_sleep_inhibit answer l = ground arith

module _ {S : Type 0} (H : Handlers S) (K : World S → Type 0) (k : Keeps H K) where
  check_activation-Keeps : (w : World S) → K w → K (check_activation H w).1
  unfolding check_activation
  check_activation-Keeps w h =
      let R = λ (r : Bool × World S). K r.1 in
      if_elim R (not (H.prefs w.rest).saver_enabled || not (H.prefs w.rest).idle_activation_enabled)
        (λ _. h)
        λ _.
          if_elim R (not w.listener.session_idle) (λ _. h)
            λ _. if_elim R (not (is_inhibited w.listener)) (λ _. k.activate w h) (λ _. h)

  check_throttle-Keeps : (w : World S) → K w → K (check_throttle H w)
  unfolding check_throttle set_throttle
  check_throttle-Keeps w h =
      let on = listener_ref_entry_is_present throttle w.listener in
      let l = record w.listener { throttled = on } in
      if_elim K (same on w.listener.throttled) (λ _. h)
        λ _.
          if_elim K (same w.listener.throttled on) (λ _. h)
            (λ _. k.throttle on (record w { listener = l }) (k.listener w l refl h))

  ref_entry_check-Keeps : (kind : EntryType) (w : World S) → K w → K (ref_entry_check H kind w)
  unfolding ref_entry_check
  ref_entry_check-Keeps inhibit w h = check_activation-Keeps w h
  ref_entry_check-Keeps throttle w h = check_throttle-Keeps w h

  add_ref_entry-Keeps :
      (kind : EntryType) (answer : Option ℕ) (e : RefEntry) (w : World S)
      → K w
      → K (add_ref_entry H kind answer e w)
  unfolding add_ref_entry
  add_ref_entry-Keeps kind answer e w h =
      let table = insert (proxied kind answer e) (get_hash_for_entry_type kind w.listener) in
      let l = set_hash kind table w.listener in
      ref_entry_check-Keeps kind (record w { listener = l })
        (k.listener w l (active-set_hash kind table w.listener) h)

  remove_ref_entry-Keeps :
      (kind : EntryType) (cookie : ℕ) (w : World S) → K w → K (remove_ref_entry H kind cookie w).1
  unfolding remove_ref_entry
  remove_ref_entry-Keeps kind cookie w h =
      let table = get_hash_for_entry_type kind w.listener in
      option_elim (λ (r : Bool × World S). K r.1) (λ _. Unit) (lookup cookie table)
        (OnSome-anything (lookup cookie table)) h
        λ e _.
          let l = set_hash kind (remove cookie table) (remove_inhibit_of kind e w.listener) in
          ref_entry_check-Keeps kind (record w { listener = l })
            (k.listener w l
              (active-set_hash kind (remove cookie table) (remove_inhibit_of kind e w.listener)
                ∙ active-remove_inhibit_of kind e w.listener)
              h)

  removed_for-Keeps :
      (kind : EntryType) (name : String) (w : World S) → K w → K (removed_for H kind name w)
  unfolding removed_for remove_for_connection
  removed_for-Keeps kind name w h =
      let table = get_hash_for_entry_type kind w.listener in
      let l = set_hash kind (without name table) (remove_inhibits name table w.listener) in
      let h' : K (record w { listener = l }) =
        k.listener w l
          (active-set_hash kind (without name table) (remove_inhibits name table w.listener)
            ∙ active-remove_inhibits name table w.listener)
          h in
      if_elim K (has_any name table)
        (λ _. ref_entry_check-Keeps kind (record w { listener = l }) h') (λ _. h')

  service_deleted-Keeps : (name : String) (w : World S) → K w → K (service_deleted H name w)
  unfolding service_deleted
  service_deleted-Keeps name w h =
      removed_for-Keeps inhibit name (removed_for H throttle name w)
        (removed_for-Keeps throttle name w h)

  add_entry_call-Keeps :
      (kind : EntryType) (m : Message) (w : World S) → K w → K (add_entry_call H kind m w).1
  unfolding add_entry_call
  add_entry_call-Keeps kind m w h =
      let R = λ (r : Reply × World S). K r.1 in
      option_elim R (λ _. Unit) (two_strings m.args) (OnSome-anything (two_strings m.args)) h
        λ texts _.
          let key = generate_unique_key m.draws (get_hash_for_entry_type kind w.listener) in
          option_elim R (λ _. Unit) key (OnSome-anything key) h
            λ cookie _. add_ref_entry-Keeps kind m.answer (new_entry kind m cookie texts) w h

  remove_entry_call-Keeps :
      (kind : EntryType) (m : Message) (w : World S) → K w → K (remove_entry_call H kind m w).1
  unfolding remove_entry_call
  remove_entry_call-Keeps kind m w h =
      option_elim (λ (r : Reply × World S). K r.1) (λ _. Unit) (one_uint m.args)
        (OnSome-anything (one_uint m.args)) h (λ cookie _. remove_ref_entry-Keeps kind cookie w h)

  show_message_call-Keeps : (m : Message) (w : World S) → K w → K (show_message_call H m w).1
  unfolding show_message_call
  show_message_call-Keeps m w h =
      let R = λ (r : Reply × World S). K r.1 in
      if_elim R (not w.listener.active) (λ _. h)
        λ _.
          option_elim R (λ _. Unit) (three_strings m.args) (OnSome-anything (three_strings m.args))
            h (λ (a, b, c) _. k.show a b c w h)

  name_owner_changed-Keeps : (m : Message) (w : World S) → K w → K (name_owner_changed H m w).1
  unfolding name_owner_changed
  name_owner_changed-Keeps m w h =
      option_elim (λ (r : Result × World S). K r.1) (λ _. Unit) (two_strings m.args)
        (OnSome-anything (two_strings m.args)) h
        (λ (name, old_owner) _. service_deleted-Keeps old_owner w h)

  prepare_for_sleep-Keeps :
      (on : Bool) (answer : Option ℕ) (w : World S) → K w → K (prepare_for_sleep H on answer w)
  unfolding prepare_for_sleep
  prepare_for_sleep-Keeps true answer w h =
      let locked = if (H.prefs w.rest).sleep_activation_enabled then H.lock w else w in
      let h' : K locked =
        if_elim K (H.prefs w.rest).sleep_activation_enabled (λ _. k.lock w h) (λ _. h) in
      k.listener locked (remove_sleep_inhibit locked.listener)
        (active-remove_sleep_inhibit locked.listener) h'
  prepare_for_sleep-Keeps false answer w h =
      let l = add_sleep_inhibit answer w.listener in
      k.prompt (record w { listener = l })
        (k.listener w l (active-add_sleep_inhibit answer w.listener) h)

  calls : Calls H K
  calls = record {
    lock = k.lock;
    cycle = k.cycle;
    simulate = k.simulate;
    show = show_message_call-Keeps;
    add = add_entry_call-Keeps;
    remove = remove_entry_call-Keeps;
    owner = name_owner_changed-Keeps;
    off_session = λ w h. k.listener w (record w.listener { connection = false }) refl h;
    off_system = λ w h. k.listener w (record w.listener { system_connection = false }) refl h;
    sleep = prepare_for_sleep-Keeps;
  }

  -- A message on the session bus keeps the property, if that is known where it is Quit or SetActive.
  pub filter_function-Keeps :
      (m : Message) (w : World S)
      → (is_method_call service "Quit" m ≡ true → K (H.quit w))
      → (is_method_call service "SetActive" m ≡ true → K (set_active_call H m w).1)
      → K w
      → K (filter_function H m w).1
  filter_function-Keeps = filter_function-Calls H K calls

  -- A message on the system bus keeps the property, if that is known where logind asks for an unlock.
  pub system_filter_function-Keeps :
      (properties : Option Properties) (session_active : Bool) (m : Message) (w : World S)
      → (is_signal "org.freedesktop.login1.Session" "Unlock" m ≡ true
          → K (activate_saver H.activator false w).1)
      → K w
      → K (system_filter_function H properties session_active m w).1
  system_filter_function-Keeps = system_filter_function-Calls H K calls
