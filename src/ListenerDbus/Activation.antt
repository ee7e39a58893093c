-- ===== src/ListenerDbus/Activation.antt =====
-- src/gs-listener-dbus.c: the active flag and the throttle flag, with the signals that tell of them.
use xfce4_screensaver.Base.{ℕ, Bool, true, false, ◌||◌, not, List, [], ◌∷◌, if◌then◌else◌}
use xfce4_screensaver.ListenerDbus.{
  ListenerDbus, RefEntry, World, Handlers, Activator, EntryType, inhibit, throttle,
}

unfoldable pub same : Bool → Bool → Bool
same true b = b
same false b = not b

unfoldable pub get_hash_for_entry_type : EntryType → ListenerDbus → List RefEntry
get_hash_for_entry_type inhibit l = l.inhibitors
get_hash_for_entry_type throttle l = l.throttlers

unfoldable pub is_present : List RefEntry → Bool
is_present [] = false
is_present (_ ∷ _) = true

unfoldable pub listener_ref_entry_is_present : EntryType → ListenerDbus → Bool
unfolding is_present get_hash_for_entry_type
listener_ref_entry_is_present kind l = is_present (get_hash_for_entry_type kind l)

unfoldable pub is_inhibited : ListenerDbus → Bool
unfolding listener_ref_entry_is_present
is_inhibited l = listener_ref_entry_is_present inhibit l

-- gs_listener_dbus_send_signal_active_changed: without a connection nothing is sent.
unfoldable pub send_signal_active_changed : ListenerDbus → ListenerDbus
send_signal_active_changed l =
    if l.connection then record l { changes = l.active ∷ l.changes } else l

unfoldable pub set_active_internal : ℕ → Bool → ListenerDbus → ListenerDbus
unfolding send_signal_active_changed
set_active_internal now on l =
    send_signal_active_changed (record l { active = on; active_start = if on then now else 0 })

-- gs_listener_dbus_activate_saver.
unfoldable pub activate_saver : {S : Type 0} → Activator S → Bool → World S → Bool × World S
unfolding same set_active_internal
activate_saver A on w =
    let (res, w') = A.active_changed on w in
    if same w.listener.active on
    then (true, w)
    else if res
    then (true, record w' { listener = set_active_internal (A.time w'.rest) on w'.listener })
    else (false, w')

module _ {S : Type 0} (H : Handlers S) where
  unfoldable pub check_activation : World S → Bool × World S
  unfolding activate_saver is_inhibited
  check_activation w =
      if not (H.prefs w.rest).saver_enabled || not (H.prefs w.rest).idle_activation_enabled
      then (true, w)
      else if not w.listener.session_idle
      then (true, w)
      else if not (is_inhibited w.listener)
      then activate_saver H.activator true w
      else (false, w)

  unfoldable pub set_throttle : Bool → World S → World S
  unfolding same
  set_throttle on w =
      if same w.listener.throttled on
      then w
      else H.throttle_changed on (record w { listener = record w.listener { throttled = on } })

  unfoldable pub check_throttle : World S → World S
  unfolding set_throttle listener_ref_entry_is_present same
  check_throttle w =
      let throttled = listener_ref_entry_is_present throttle w.listener in
      if same throttled w.listener.throttled then w else set_throttle throttled w

  unfoldable pub ref_entry_check : EntryType → World S → World S
  unfolding check_activation check_throttle
  ref_entry_check inhibit w = (check_activation w).1
  ref_entry_check throttle w = check_throttle w
