-- ===== src/ListenerDbus/Tables/Client.antt =====
-- What a client's requests do to the tables (src/gs-listener-dbus.c): a request that is taken back
-- leaves no trace, and a client that leaves the bus takes its own entries with it and no others.
use xfce4_screensaver.Base.{
  ℕ, ◌≡◌, Bool, true, false, Option, none, some, List, [], ◌∷◌, String, if_elim, if◌then◌else◌,
  ◌==◌, refl, ◌∙◌, sym, ap, arith, inl, inr, Bool-cases,
}
use xfce4_screensaver.ListenerDbus.{
  ListenerDbus, RefEntry, World, Handlers, EntryType, inhibit, throttle,
}
use xfce4_screensaver.ListenerDbus.Activation.{
  get_hash_for_entry_type, ref_entry_check, check_throttle, set_throttle, same,
  listener_ref_entry_is_present,
}
use xfce4_screensaver.ListenerDbus.Refs.{
  set_hash, lookup, remove, remove_for_connection, removed_for, service_deleted, remove_inhibits,
  without, has_any, is_of,
}
use xfce4_screensaver.ListenerDbus.Tables.{IsWellFormed, Distinct, Other}
use xfce4_screensaver.ListenerDbus.Tables.Laws.{KeepsTables, check_activation-same}
use xfce4_screensaver.ListenerDbus.Tables.Same.{remove_inhibits-same}

lookup-Other : (cookie : ℕ) (es : List RefEntry) → Other cookie es → lookup cookie es ≡ none
unfolding lookup
lookup-Other cookie [] h = refl
lookup-Other cookie (e ∷ es) h = rw h.0 (lookup-Other cookie es h.1)

pub no_entry :
    (e : RefEntry) (c : Bool) (o : Option RefEntry)
    → (if c then some e else o) ≡ none
    → (c ≡ false) × (o ≡ none)
no_entry e true o h = absurd (cc)
no_entry e false o h = (refl, h)

pub remove-absent :
    (cookie : ℕ) (es : List RefEntry) → lookup cookie es ≡ none → remove cookie es ≡ es
unfolding lookup remove
remove-absent cookie [] h = refl
remove-absent cookie (e ∷ es) h =
    let (apart, later) = no_entry e (e.cookie == cookie) (lookup cookie es) h in
    rw apart (ap (λ (r : List RefEntry). e ∷ r) (remove-absent cookie es later))

-- The entry of a cookie after the client has left.
unfoldable pub keep : String → Option RefEntry → Option RefEntry
keep name none = none
keep name (some e) = if is_of name e then none else some e

keep-own : (name : String) (e : RefEntry) → is_of name e ≡ true → keep name (some e) ≡ none
unfolding keep
keep-own name e of = rw of refl

keep-other : (name : String) (e : RefEntry) → is_of name e ≡ false → keep name (some e) ≡ some e
unfolding keep
keep-other name e other = rw other refl

lookup-without :
    (name : String) (cookie : ℕ) (es : List RefEntry)
    → Distinct es
    → lookup cookie (without name es) ≡ keep name (lookup cookie es)
unfolding lookup without keep
lookup-without name cookie [] d = refl
lookup-without name cookie (e ∷ es) d =
    let rest = lookup-without name cookie es d.1 in
    elim (Bool-cases (is_of name e)) [
      | inl of ↦ elim (Bool-cases (e.cookie == cookie)) [
        | inl found ↦
            let gone : lookup cookie es ≡ none =
              let e1 : e.cookie ≡ cookie = ground arith in
              rw (sym e1) (lookup-Other e.cookie es d.0) in
            rw of (rw found (rest ∙ ap (keep name) gone ∙ sym (keep-own name e of)))
        | inr away ↦ rw of (rw away rest)
      ]
      | inr other ↦ elim (Bool-cases (e.cookie == cookie)) [
        | inl found ↦ rw other (rw found (sym (keep-other name e other)))
        | inr away ↦ rw other (rw away rest)
      ]
    ]

-- The lists are the same; the throttle flag may differ.
abbrev pub SameLists : ListenerDbus → ListenerDbus → Type 0
SameLists l r = (r.inhibitors ≡ l.inhibitors) × (r.throttlers ≡ l.throttlers)

pub get_hash-same :
    (kind : EntryType) (l r : ListenerDbus)
    → SameLists l r
    → get_hash_for_entry_type kind r ≡ get_hash_for_entry_type kind l
unfolding get_hash_for_entry_type
get_hash-same inhibit l r e = e.0
get_hash-same throttle l r e = e.1

pub set_hash-lists :
    (kind : EntryType) (es : List RefEntry) (l r : ListenerDbus)
    → SameLists l r
    → SameLists (set_hash kind es l) (set_hash kind es r)
unfolding set_hash
set_hash-lists inhibit es l r e = (refl, e.1)
set_hash-lists throttle es l r e = (e.0, refl)

pub set_hash_back :
    (kind : EntryType) (l : ListenerDbus)
    → SameLists l (set_hash kind (get_hash_for_entry_type kind l) l)
unfolding set_hash get_hash_for_entry_type
set_hash_back inhibit l = (refl, refl)
set_hash_back throttle l = (refl, refl)

pub lists_then : (l k r : ListenerDbus) → SameLists l k → SameLists k r → SameLists l r
lists_then l k r a b = (b.0 ∙ a.0, b.1 ∙ a.1)

module _ {S : Type 0} (H : Handlers S) (k : KeepsTables H) where
  check_throttle-lists : (w : World S) → SameLists w.listener (check_throttle H w).listener
  unfolding check_throttle set_throttle
  check_throttle-lists w =
      let R = λ (r : World S). SameLists w.listener r.listener in
      let on = listener_ref_entry_is_present throttle w.listener in
      let w' = record w { listener = record w.listener { throttled = on } } in
      let e = k.throttle on w' in
      if_elim R (same on w.listener.throttled) (λ _. (refl, refl))
        λ _. if_elim R (same w.listener.throttled on) (λ _. (refl, refl)) (λ _. (e.0, e.1))

  pub ref_entry_check-lists :
      (kind : EntryType) (w : World S) → SameLists w.listener (ref_entry_check H kind w).listener
  unfolding ref_entry_check
  ref_entry_check-lists inhibit w = let e = check_activation-same H k w in (e.0, e.1)
  ref_entry_check-lists throttle w = check_throttle-lists w

  -- The entries of the client leave the table of the kind, and nothing else changes in the tables.
  removed_for-lists :
      (kind : EntryType) (name : String) (w : World S)
      → SameLists
          (set_hash kind (without name (get_hash_for_entry_type kind w.listener)) w.listener)
          (removed_for H kind name w).listener
  unfolding removed_for remove_for_connection
  removed_for-lists kind name w =
      let table = get_hash_for_entry_type kind w.listener in
      let l = remove_inhibits name table w.listener in
      let e = remove_inhibits-same name table w.listener in
      let left = set_hash kind (without name table) l in
      let wanted = set_hash kind (without name table) w.listener in
      let first = set_hash-lists kind (without name table) w.listener l (e.0, e.1) in
      if_elim (λ (r : World S). SameLists wanted r.listener) (has_any name table)
        (λ _.
          lists_then wanted left (ref_entry_check H kind (record w { listener = left })).listener
            first (ref_entry_check-lists kind (record w { listener = left })))
        (λ _. first)

  service_deleted-lists :
      (name : String) (w : World S)
      → ((service_deleted H name w).listener.inhibitors ≡ without name w.listener.inhibitors)
        × ((service_deleted H name w).listener.throttlers ≡ without name w.listener.throttlers)
  unfolding service_deleted set_hash get_hash_for_entry_type
  service_deleted-lists name w =
      let first = removed_for-lists throttle name w in
      let second = removed_for-lists inhibit name (removed_for H throttle name w) in
      (second.0 ∙ ap (without name) first.0, second.1 ∙ first.1)

  -- After a client has left the bus, a cookie finds in each table the entry that it found before,
  -- unless that was an entry of the client, which is gone; if the tables are well-formed and the
  -- handlers of the listener's signals leave them alone.
  pub service_deleted-lookup :
      (name : String) (w : World S)
      → IsWellFormed w.listener
      → (kind : EntryType) (cookie : ℕ)
      → lookup cookie (get_hash_for_entry_type kind (service_deleted H name w).listener)
        ≡ keep name (lookup cookie (get_hash_for_entry_type kind w.listener))
  unfolding get_hash_for_entry_type
  service_deleted-lookup name w h inhibit cookie =
      rw (service_deleted-lists name w).0
        (lookup-without name cookie w.listener.inhibitors h.inhibitors_ok.0)
  service_deleted-lookup name w h throttle cookie =
      rw (service_deleted-lists name w).1
        (lookup-without name cookie w.listener.throttlers h.throttlers_ok.0)
