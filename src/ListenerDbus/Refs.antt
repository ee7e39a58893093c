-- ===== src/ListenerDbus/Refs.antt =====
-- src/gs-listener-dbus.c: the tables of inhibitors and throttlers. What logind answers to a request
-- for an inhibitor lock, and the random numbers, are parameters.
use xfce4_screensaver.Base.{
  ℕ, Bool, true, false, ◌||◌, Option, none, some, List, [], ◌∷◌, ◌++◌, String, ◌==◌, str_eq,
  str_append, if◌then◌else◌, map,
}
use xfce4_screensaver.Base.Int.{pos, ltb_ℤ}
use xfce4_screensaver.ListenerDbus.{
  ListenerDbus, RefEntry, World, Handlers, EntryType, inhibit, throttle,
}
use xfce4_screensaver.ListenerDbus.Activation.{get_hash_for_entry_type, ref_entry_check}

unfoldable pub lookup : ℕ → List RefEntry → Option RefEntry
lookup cookie [] = none
lookup cookie (e ∷ es) = let rest = lookup cookie es in if e.cookie == cookie then some e else rest

-- g_hash_table_remove of a cookie.
unfoldable pub remove : ℕ → List RefEntry → List RefEntry
remove cookie [] = []
remove cookie (e ∷ es) =
    let rest = remove cookie es in if e.cookie == cookie then rest else e ∷ rest

-- g_hash_table_insert, which replaces an entry of the same cookie.
unfoldable pub insert : RefEntry → List RefEntry → List RefEntry
unfolding remove
insert e es = remove e.cookie es ++ e ∷ []

unfoldable pub is_none : Option RefEntry → Bool
is_none none = true
is_none (some _) = false

-- listener_generate_unique_key over the numbers that g_random_int_range draws, or `none` while every
-- number drawn is a cookie of the table.
unfoldable pub generate_unique_key : List ℕ → List RefEntry → Option ℕ
unfolding lookup is_none
generate_unique_key [] es = none
generate_unique_key (cookie ∷ draws) es =
    let later = generate_unique_key draws es in
    if is_none (lookup cookie es) then some cookie else later

unfoldable pub set_hash : EntryType → List RefEntry → ListenerDbus → ListenerDbus
set_hash inhibit es l = record l { inhibitors = es }
set_hash throttle es l = record l { throttlers = es }

-- The descriptor that a reply brings is stored; without one the entry keeps what it has.
unfoldable pub add_session_inhibit : Option ℕ → RefEntry → RefEntry
add_session_inhibit none e = e
add_session_inhibit (some fd) e = record e { fd = pos fd }

-- remove_session_inhibit. Whether `close` succeeds makes no difference.
unfoldable pub remove_session_inhibit : RefEntry → ListenerDbus → ListenerDbus
remove_session_inhibit e l = if ltb_ℤ e.fd (pos 0) then l else record l { closed = e.fd ∷ l.closed }

unfoldable pub remove_inhibit_of : EntryType → RefEntry → ListenerDbus → ListenerDbus
unfolding remove_session_inhibit
remove_inhibit_of inhibit e l = remove_session_inhibit e l
remove_inhibit_of throttle e l = l

unfoldable pub proxied : EntryType → Option ℕ → RefEntry → RefEntry
unfolding add_session_inhibit
proxied inhibit answer e = add_session_inhibit answer e
proxied throttle answer e = e

module _ {S : Type 0} (H : Handlers S) where
  -- listener_add_ref_entry. The table holds the entry itself, so that its descriptor is in the table.
  unfoldable pub add_ref_entry : EntryType → Option ℕ → RefEntry → World S → World S
  unfolding insert set_hash proxied
  add_ref_entry kind answer e w =
      let table = insert (proxied kind answer e) (get_hash_for_entry_type kind w.listener) in
      ref_entry_check H kind (record w { listener = set_hash kind table w.listener })

  -- listener_remove_ref_entry: whether there was an entry, and the state.
  unfoldable pub remove_ref_entry : EntryType → ℕ → World S → Bool × World S
  unfolding lookup remove set_hash remove_inhibit_of
  remove_ref_entry kind cookie w =
      let table = get_hash_for_entry_type kind w.listener in
      elim (lookup cookie table) [
        | none ↦ (false, w)
        | some e ↦ (
          true,
          ref_entry_check H kind (record w {
            listener = set_hash kind (remove cookie table) (remove_inhibit_of kind e w.listener);
          }),
        )
      ]

unfoldable pub is_of : String → RefEntry → Bool
is_of name e = elim e.connection [ none ↦ false | some c ↦ str_eq name c ]

unfoldable pub without : String → List RefEntry → List RefEntry
unfolding is_of
without name [] = []
without name (e ∷ es) = let rest = without name es in if is_of name e then rest else e ∷ rest

unfoldable pub has_any : String → List RefEntry → Bool
unfolding is_of
has_any name [] = false
has_any name (e ∷ es) = is_of name e || has_any name es

-- The session inhibitors of the entries that leave are removed with them.
unfoldable pub remove_inhibits : String → List RefEntry → ListenerDbus → ListenerDbus
unfolding is_of remove_inhibit_of
remove_inhibits name [] l = l
remove_inhibits name (e ∷ es) l =
    remove_inhibits name es (if is_of name e then remove_inhibit_of e.entry_type e l else l)

-- listener_ref_entry_remove_for_connection: whether an entry was removed, and the listener.
unfoldable pub remove_for_connection : EntryType → String → ListenerDbus → Bool × ListenerDbus
unfolding without has_any remove_inhibits set_hash
remove_for_connection kind name l =
    let table = get_hash_for_entry_type kind l in
    (has_any name table, set_hash kind (without name table) (remove_inhibits name table l))

module _ {S : Type 0} (H : Handlers S) where
  unfoldable pub removed_for : EntryType → String → World S → World S
  unfolding remove_for_connection
  removed_for kind name w =
      let (removed, l) = remove_for_connection kind name w.listener in
      let changed = record w { listener = l } in
      if removed then ref_entry_check H kind changed else changed

  -- listener_service_deleted: the second string of NameOwnerChanged is the name's old owner.
  unfoldable pub service_deleted : String → World S → World S
  unfolding removed_for
  service_deleted name w = removed_for inhibit name (removed_for throttle name w)

-- accumulate_ref_entry: the text for one entry of a table.
unfoldable pub describe : RefEntry → String
describe e = str_append "Application=\"" (
    str_append e.application (
      str_append "\"; Since=\""
        (str_append e.since (str_append "\"; Reason=\"" (str_append e.reason "\";")))))

unfoldable pub get_ref_entries : EntryType → ListenerDbus → List String
unfolding describe get_hash_for_entry_type
get_ref_entries kind l = map describe (get_hash_for_entry_type kind l)
