-- ===== src/ListenerDbus/Tables/Entries.antt =====
-- Adding and removing entries leaves the tables well-formed (src/gs-listener-dbus.c).
use xfce4_screensaver.Base.{
  ℕ, ◌≡◌, Bool, Option, List, String, if_elim, option_elim, OnSome-anything, refl, ◌∙◌, sym,
}
use xfce4_screensaver.ListenerDbus.{
  ListenerDbus, RefEntry, World, Handlers, EntryType, inhibit, throttle,
}
use xfce4_screensaver.ListenerDbus.Activation.{
  check_activation, check_throttle, set_throttle, same, ref_entry_check, is_present,
  listener_ref_entry_is_present, get_hash_for_entry_type,
}
use xfce4_screensaver.ListenerDbus.Refs.{
  add_ref_entry, remove_ref_entry, set_hash, insert, proxied, lookup, remove, remove_inhibit_of,
  remove_for_connection, removed_for, service_deleted, remove_inhibits, without, has_any,
}
use xfce4_screensaver.ListenerDbus.Tables.{
  IsWellFormed, TableOk, remove-TableOk, insert-TableOk, without-TableOk,
}
use xfce4_screensaver.ListenerDbus.Tables.Laws.{
  KeepsTables, IsWellFormed-same, check_activation-same,
}
use xfce4_screensaver.ListenerDbus.Tables.Same.{
  same_eq, same_swap, remove_inhibit_of-same, remove_inhibits-same, get_hash-TableOk,
  entry_type-proxied, without-none, set_hash-same,
}

module _ {S : Type 0} (H : Handlers S) (k : KeepsTables H) where
  pub check_throttle-IsWellFormed :
      (w : World S)
      → TableOk inhibit w.listener.inhibitors
      → TableOk throttle w.listener.throttlers
      → IsWellFormed (check_throttle H w).listener
  unfolding check_throttle set_throttle listener_ref_entry_is_present get_hash_for_entry_type
  check_throttle-IsWellFormed w i t =
      let R = λ (r : World S). IsWellFormed r.listener in
      let on = is_present w.listener.throttlers in
      let l = record w.listener { throttled = on } in
      if_elim R (same on w.listener.throttled)
        (λ e. record {
          inhibitors_ok = i;
          throttlers_ok = t;
          flag = sym (same_eq on w.listener.throttled e);
        })
        λ e.
          if_elim R (same w.listener.throttled on)
            (λ e'. absurd (same_swap on w.listener.throttled e e'))
            (λ _.
              IsWellFormed-same l (H.throttle_changed on (record w { listener = l })).listener
                (k.throttle on (record w { listener = l }))
                (record { inhibitors_ok = i; throttlers_ok = t; flag = refl }))

  -- The tables are in order, and for a change of inhibitors the flag is too.
  abbrev pub Ready : EntryType → ListenerDbus → Type 0
  Ready inhibit l = IsWellFormed l
  Ready throttle l = TableOk inhibit l.inhibitors × TableOk throttle l.throttlers

  pub ref_entry_check-IsWellFormed :
      (kind : EntryType) (w : World S)
      → Ready kind w.listener
      → IsWellFormed (ref_entry_check H kind w).listener
  unfolding ref_entry_check
  ref_entry_check-IsWellFormed inhibit w h =
      IsWellFormed-same w.listener (check_activation H w).1.listener (check_activation-same H k w) h
  ref_entry_check-IsWellFormed throttle w h = check_throttle-IsWellFormed w h.0 h.1

  pub set_hash-Ready :
      (kind : EntryType) (es : List RefEntry) (l : ListenerDbus)
      → TableOk kind es
      → IsWellFormed l
      → Ready kind (set_hash kind es l)
  unfolding set_hash
  set_hash-Ready inhibit es l t h = record {
    inhibitors_ok = t;
    throttlers_ok = h.throttlers_ok;
    flag = h.flag;
  }
  set_hash-Ready throttle es l t h = (h.inhibitors_ok, t)

  abbrev pub K : World S → Type 0
  K w = IsWellFormed w.listener

  pub add_ref_entry-IsWellFormed :
      (kind : EntryType) (answer : Option ℕ) (e : RefEntry) (w : World S)
      → e.entry_type ≡ kind
      → K w
      → K (add_ref_entry H kind answer e w)
  unfolding add_ref_entry
  add_ref_entry-IsWellFormed kind answer e w of_kind h =
      let table = get_hash_for_entry_type kind w.listener in
      let added = insert (proxied kind answer e) table in
      ref_entry_check-IsWellFormed kind (record w { listener = set_hash kind added w.listener })
        (set_hash-Ready kind added w.listener
          (insert-TableOk kind (proxied kind answer e) table
            (entry_type-proxied kind answer e ∙ of_kind) (get_hash-TableOk kind w.listener h))
          h)

  pub remove_ref_entry-IsWellFormed :
      (kind : EntryType) (cookie : ℕ) (w : World S) → K w → K (remove_ref_entry H kind cookie w).1
  unfolding remove_ref_entry
  remove_ref_entry-IsWellFormed kind cookie w h =
      let table = get_hash_for_entry_type kind w.listener in
      option_elim (λ (r : Bool × World S). K r.1) (λ _. Unit) (lookup cookie table)
        (OnSome-anything (lookup cookie table)) h
        λ e _.
          let l = remove_inhibit_of kind e w.listener in
          ref_entry_check-IsWellFormed kind
            (record w { listener = set_hash kind (remove cookie table) l })
            (set_hash-Ready kind (remove cookie table) l
              (remove-TableOk kind cookie table (get_hash-TableOk kind w.listener h))
              (IsWellFormed-same w.listener l (remove_inhibit_of-same kind e w.listener) h))

  pub removed_for-IsWellFormed :
      (kind : EntryType) (name : String) (w : World S) → K w → K (removed_for H kind name w)
  unfolding removed_for remove_for_connection
  removed_for-IsWellFormed kind name w h =
      let table = get_hash_for_entry_type kind w.listener in
      let l = remove_inhibits name table w.listener in
      let l' = set_hash kind (without name table) l in
      let ready : Ready kind l' =
        set_hash-Ready kind (without name table) l
          (without-TableOk kind name table (get_hash-TableOk kind w.listener h))
          (IsWellFormed-same w.listener l (remove_inhibits-same name table w.listener) h) in
      if_elim K (has_any name table)
        (λ _. ref_entry_check-IsWellFormed kind (record w { listener = l' }) ready)
        (λ none_left. rw (without-none name table none_left) (
          IsWellFormed-same w.listener (set_hash kind table l)
            (set_hash-same kind w.listener l (remove_inhibits-same name table w.listener)) h))

  pub service_deleted-IsWellFormed :
      (name : String) (w : World S) → K w → K (service_deleted H name w)
  unfolding service_deleted
  service_deleted-IsWellFormed name w h =
      removed_for-IsWellFormed inhibit name (removed_for H throttle name w)
        (removed_for-IsWellFormed throttle name w h)
