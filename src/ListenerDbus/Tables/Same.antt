-- ===== src/ListenerDbus/Tables/Same.antt =====
-- The operations on the entries that leave the tables and the throttle flag (src/gs-listener-dbus.c).
use xfce4_screensaver.Base.{
  ℕ, ◌≡◌, Bool, true, false, Option, none, some, List, [], ◌∷◌, String, if_elim, if◌then◌else◌,
  refl, arith,
}
use xfce4_screensaver.ListenerDbus.{ListenerDbus, RefEntry, EntryType, inhibit, throttle}
use xfce4_screensaver.ListenerDbus.Activation.{same, get_hash_for_entry_type}
use xfce4_screensaver.ListenerDbus.Refs.{
  set_hash, proxied, add_session_inhibit, remove_inhibit_of, remove_session_inhibit,
  remove_inhibits, without, has_any, is_of,
}
use xfce4_screensaver.ListenerDbus.Logind.{add_sleep_inhibit, remove_sleep_inhibit}
use xfce4_screensaver.ListenerDbus.Tables.{IsWellFormed, TableOk}
use xfce4_screensaver.ListenerDbus.Tables.Laws.{SameTables, same_then}

pub same_eq : (a b : Bool) → same a b ≡ true → a ≡ b
unfolding same
same_eq a b e = ground arith

pub same_swap : (a b : Bool) → same a b ≡ false → ¬ (same b a ≡ true)
unfolding same
same_swap a b e e' = ground arith

pub remove_inhibit_of-same :
    (kind : EntryType) (e : RefEntry) (l : ListenerDbus) → SameTables l (remove_inhibit_of kind e l)
unfolding remove_inhibit_of remove_session_inhibit
remove_inhibit_of-same inhibit e l = ground arith
remove_inhibit_of-same throttle e l = (refl, refl, refl)

pub remove_inhibits-same :
    (name : String) (es : List RefEntry) (l : ListenerDbus)
    → SameTables l (remove_inhibits name es l)
unfolding remove_inhibits
remove_inhibits-same name [] l = (refl, refl, refl)
remove_inhibits-same name (e ∷ es) l =
    let l' = if is_of name e then remove_inhibit_of e.entry_type e l else l in
    same_then l l' (remove_inhibits name es l')
      (if_elim (SameTables l) (is_of name e) (λ _. remove_inhibit_of-same e.entry_type e l)
        (λ _. (refl, refl, refl)))
      (remove_inhibits-same name es l')

pub get_hash-TableOk :
    (kind : EntryType) (l : ListenerDbus)
    → IsWellFormed l
    → TableOk kind (get_hash_for_entry_type kind l)
unfolding get_hash_for_entry_type
get_hash-TableOk inhibit l h = h.inhibitors_ok
get_hash-TableOk throttle l h = h.throttlers_ok

pub entry_type-proxied :
    (kind : EntryType) (answer : Option ℕ) (e : RefEntry)
    → (proxied kind answer e).entry_type ≡ e.entry_type
unfolding proxied add_session_inhibit
entry_type-proxied inhibit none e = refl
entry_type-proxied inhibit (some fd) e = refl
entry_type-proxied throttle answer e = refl

pub remove_sleep_inhibit-same : (l : ListenerDbus) → SameTables l (remove_sleep_inhibit l)
unfolding remove_sleep_inhibit
remove_sleep_inhibit-same l = ground arith

pub add_sleep_inhibit-same :
    (answer : Option ℕ) (l : ListenerDbus) → SameTables l (add_sleep_inhibit answer l)
unfolding add_sleep_inhibit
add_sleep_inhibit-same answer l = ground arith

pub without-none :
    (name : String) (es : List RefEntry) → has_any name es ≡ false → without name es ≡ es
unfolding without has_any
without-none name [] e = refl
without-none name (x ∷ xs) e =
    let first : is_of name x ≡ false = ground arith in
    let later : has_any name xs ≡ false = ground arith in
    rw first (rw (without-none name xs later) refl)

pub set_hash-same :
    (kind : EntryType) (l r : ListenerDbus)
    → SameTables l r
    → SameTables l (set_hash kind (get_hash_for_entry_type kind l) r)
unfolding set_hash get_hash_for_entry_type
set_hash-same inhibit l r e = (refl, e.1, e.2)
set_hash-same throttle l r e = (e.0, refl, e.2)
