-- ===== src/ListenerDbus/Tables/TakenBack.antt =====
-- A request for an inhibitor or a throttler that is taken back leaves the tables as they were
-- (src/gs-listener-dbus.c).
use xfce4_screensaver.Base.{
  ℕ, ◌≡◌, Bool, Option, none, some, List, [], ◌∷◌, ◌++◌, if_elim, ◌==◌, refl, ◌∙◌, sym, ap, arith,
  option_cases, OnSome, OnSome-anything, option_elim,
}
use xfce4_screensaver.ListenerDbus.{
  ListenerDbus, RefEntry, World, Handlers, EntryType, inhibit, throttle,
}
use xfce4_screensaver.ListenerDbus.Activation.{get_hash_for_entry_type, ref_entry_check}
use xfce4_screensaver.ListenerDbus.Refs.{
  add_ref_entry, remove_ref_entry, set_hash, insert, proxied, add_session_inhibit, lookup, remove,
  remove_inhibit_of, generate_unique_key, is_none,
}
use xfce4_screensaver.ListenerDbus.Messages.{
  Message, Reply, cookie_reply, add_entry_call, remove_entry_call, two_strings, one_uint, new_entry,
}
use xfce4_screensaver.ListenerDbus.Tables.Keys.{is_none-true}
use xfce4_screensaver.ListenerDbus.Tables.Laws.{KeepsTables}
use xfce4_screensaver.ListenerDbus.Tables.Same.{remove_inhibit_of-same}
use xfce4_screensaver.ListenerDbus.Tables.Client.{
  SameLists, get_hash-same, set_hash-lists, lists_then, ref_entry_check-lists, remove-absent,
  no_entry,
}

cookie-proxied :
    (kind : EntryType) (answer : Option ℕ) (e : RefEntry)
    → (proxied kind answer e).cookie ≡ e.cookie
unfolding proxied add_session_inhibit
cookie-proxied inhibit none e = refl
cookie-proxied inhibit (some fd) e = refl
cookie-proxied throttle answer e = refl

-- A key that was generated is not in the table.
generate_unique_key-fresh :
    (draws : List ℕ) (es : List RefEntry)
    → OnSome (λ cookie. lookup cookie es ≡ none) (generate_unique_key draws es)
unfolding generate_unique_key
generate_unique_key-fresh [] es = tt
generate_unique_key-fresh (x ∷ xs) es =
    if_elim (OnSome (λ cookie. lookup cookie es ≡ none)) (is_none (lookup x es))
      (λ e. is_none-true (lookup x es) e) (λ _. generate_unique_key-fresh xs es)

lookup_last :
    (e : RefEntry) (cookie : ℕ) (es : List RefEntry)
    → e.cookie ≡ cookie
    → lookup cookie es ≡ none
    → lookup cookie (es ++ e ∷ []) ≡ some e
unfolding lookup
lookup_last e cookie [] c h = ground arith
lookup_last e cookie (x ∷ xs) c h =
    let (apart, later) = no_entry x (x.cookie == cookie) (lookup cookie xs) h in
    rw apart (lookup_last e cookie xs c later)

remove_last :
    (e : RefEntry) (cookie : ℕ) (es : List RefEntry)
    → e.cookie ≡ cookie
    → lookup cookie es ≡ none
    → remove cookie (es ++ e ∷ []) ≡ es
unfolding lookup remove
remove_last e cookie [] c h = ground arith
remove_last e cookie (x ∷ xs) c h =
    let (apart, later) = no_entry x (x.cookie == cookie) (lookup cookie xs) h in
    rw apart (ap (λ (r : List RefEntry). x ∷ r) (remove_last e cookie xs c later))

insert_fresh :
    (e : RefEntry) (es : List RefEntry) → lookup e.cookie es ≡ none → insert e es ≡ es ++ e ∷ []
unfolding insert
insert_fresh e es h = ap (λ (r : List RefEntry). r ++ e ∷ []) (remove-absent e.cookie es h)

get_hash-set_hash :
    (kind : EntryType) (es : List RefEntry) (l : ListenerDbus)
    → get_hash_for_entry_type kind (set_hash kind es l) ≡ es
unfolding get_hash_for_entry_type set_hash
get_hash-set_hash inhibit es l = refl
get_hash-set_hash throttle es l = refl

set_hash-set_hash :
    (kind : EntryType) (es : List RefEntry) (l : ListenerDbus)
    → SameLists l (set_hash kind (get_hash_for_entry_type kind l) (set_hash kind es l))
unfolding get_hash_for_entry_type set_hash
set_hash-set_hash inhibit es l = (refl, refl)
set_hash-set_hash throttle es l = (refl, refl)

module _ {S : Type 0} (H : Handlers S) (k : KeepsTables H) where
  remove_ref_entry-lists :
      (kind : EntryType) (cookie : ℕ) (e : RefEntry) (w : World S)
      → lookup cookie (get_hash_for_entry_type kind w.listener) ≡ some e
      → SameLists
          (set_hash kind (remove cookie (get_hash_for_entry_type kind w.listener)) w.listener)
          (remove_ref_entry H kind cookie w).1.listener
  unfolding remove_ref_entry
  remove_ref_entry-lists kind cookie e w found =
      let left = remove cookie (get_hash_for_entry_type kind w.listener) in
      option_cases (λ (r : Bool × World S). SameLists (set_hash kind left w.listener) r.1.listener)
        (lookup cookie (get_hash_for_entry_type kind w.listener)) (λ none_left. absurd (cc))
        λ e _.
          let l = set_hash kind left (remove_inhibit_of kind e w.listener) in
          let same = remove_inhibit_of-same kind e w.listener in
          lists_then (set_hash kind left w.listener) l
            (ref_entry_check H kind (record w { listener = l })).listener
            (set_hash-lists kind left w.listener (remove_inhibit_of kind e w.listener)
              (same.0, same.1))
            (ref_entry_check-lists H k kind (record w { listener = l }))

  added :
      (kind : EntryType) (answer : Option ℕ) (e : RefEntry) (w : World S)
      → lookup e.cookie (get_hash_for_entry_type kind w.listener) ≡ none
      → SameLists
          (set_hash kind
            (get_hash_for_entry_type kind w.listener ++ proxied kind answer e ∷ [])
            w.listener)
          (add_ref_entry H kind answer e w).listener
  unfolding add_ref_entry
  added kind answer e w absent =
      let table = get_hash_for_entry_type kind w.listener in
      let p = proxied kind answer e in
      let absent' : lookup p.cookie table ≡ none = rw (cookie-proxied kind answer e) absent in
      let w' = record w { listener = set_hash kind (insert p table) w.listener } in
      rw (sym (insert_fresh p table absent')) (ref_entry_check-lists H k kind w')

  remove_ref_entry-add_ref_entry :
      (kind : EntryType) (answer : Option ℕ) (e : RefEntry) (w : World S)
      → lookup e.cookie (get_hash_for_entry_type kind w.listener) ≡ none
      → SameLists w.listener
          (remove_ref_entry H kind e.cookie (add_ref_entry H kind answer e w)).1.listener
  remove_ref_entry-add_ref_entry kind answer e w absent =
      let l = w.listener in
      let table = get_hash_for_entry_type kind l in
      let p = proxied kind answer e in
      let c : p.cookie ≡ e.cookie = cookie-proxied kind answer e in
      let longer = table ++ p ∷ [] in
      let w1 = add_ref_entry H kind answer e w in
      let first = added kind answer e w absent in
      let table1 : get_hash_for_entry_type kind w1.listener ≡ longer =
        get_hash-same kind (set_hash kind longer l) w1.listener first
        ∙ get_hash-set_hash kind longer l in
      let found : lookup e.cookie (get_hash_for_entry_type kind w1.listener) ≡ some p =
        rw table1 (lookup_last p e.cookie table c absent) in
      let removed : remove e.cookie (get_hash_for_entry_type kind w1.listener) ≡ table =
        rw table1 (remove_last p e.cookie table c absent) in
      let second = remove_ref_entry-lists kind e.cookie p w1 found in
      let w2 = (remove_ref_entry H kind e.cookie w1).1 in
      let second' : SameLists (set_hash kind table w1.listener) w2.listener =
        rw (sym removed) second in
      lists_then l (set_hash kind table (set_hash kind longer l)) w2.listener
        (set_hash-set_hash kind longer l)
        (lists_then (set_hash kind table (set_hash kind longer l)) (set_hash kind table w1.listener)
          w2.listener (set_hash-lists kind table (set_hash kind longer l) w1.listener first)
          second')

  -- A client that asks for an inhibitor or a throttler and takes it back with the cookie that it was
  -- answered leaves both tables as they were, if the handlers of the listener's signals leave them
  -- alone.
  pub remove_entry_call-add_entry_call :
      (kind : EntryType) (m back : Message) (cookie : ℕ) (w : World S)
      → (add_entry_call H kind m w).0 ≡ cookie_reply cookie
      → one_uint back.args ≡ some cookie
      → SameLists w.listener
          (remove_entry_call H kind back (add_entry_call H kind m w).1).1.listener
  unfolding add_entry_call remove_entry_call new_entry
  remove_entry_call-add_entry_call kind m back cookie w =
      let table = get_hash_for_entry_type kind w.listener in
      let R = λ (r : Reply × World S).
        r.0 ≡ cookie_reply cookie
        → one_uint back.args ≡ some cookie
        → SameLists w.listener (remove_entry_call H kind back r.1).1.listener in
      option_elim R (λ _. Unit) (two_strings m.args) (OnSome-anything (two_strings m.args))
        (λ bad _. absurd (cc))
        λ texts _.
          let key = generate_unique_key m.draws table in
          option_elim R (λ c. lookup c table ≡ none) key (generate_unique_key-fresh m.draws table)
            (λ bad _. absurd (cc))
            λ c absent e e'.
              let e1 : c ≡ cookie = cc in
              let added = add_ref_entry H kind m.answer (new_entry kind m c texts) w in
              option_cases (λ (r : Reply × World S). SameLists w.listener r.1.listener)
                (one_uint back.args) (λ none_left. absurd (cc))
                (λ given e''.
                  let e2 : given ≡ c = cc in
                  rw e2 (
                    remove_ref_entry-add_ref_entry kind m.answer (new_entry kind m c texts) w
                      absent))
