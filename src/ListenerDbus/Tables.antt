-- ===== src/ListenerDbus/Tables.antt =====
-- The tables of inhibitors and throttlers (src/gs-listener-dbus.c): cookies are unique, each entry is
-- in the table of its kind, and the throttle flag says whether there is a throttler.
pub mod Keys
pub mod Laws
pub mod Same
pub mod Entries
pub mod Messages
pub mod Client
pub mod TakenBack
use xfce4_screensaver.Base.{
  ℕ, ◌≡◌, Bool, true, false, List, [], ◌∷◌, ◌++◌, All, All-append, if_elim, if◌then◌else◌, ◌==◌,
  refl, arith, String,
}
use xfce4_screensaver.ListenerDbus.{ListenerDbus, RefEntry, EntryType, inhibit, throttle}
use xfce4_screensaver.ListenerDbus.Activation.{is_present}
use xfce4_screensaver.ListenerDbus.Refs.{remove, insert, without, is_of}

-- No entry has the cookie.
abbrev pub Other : ℕ → List RefEntry → Type 0
Other cookie es = All (λ (e : RefEntry). (e.cookie == cookie) ≡ false) es

-- No two entries have the same cookie.
abbrev pub Distinct : List RefEntry → Type 0
Distinct [] = Unit
Distinct (e ∷ es) = Other e.cookie es × Distinct es

abbrev pub TableOk : EntryType → List RefEntry → Type 0
TableOk kind es = Distinct es × All (λ (e : RefEntry). e.entry_type ≡ kind) es

pub record WellFormed (inhibitors throttlers : List RefEntry) (throttled : Bool) : Type 0 where
  pub inhibitors_ok : TableOk inhibit inhibitors
  pub throttlers_ok : TableOk throttle throttlers
  pub flag : throttled ≡ is_present throttlers

abbrev pub IsWellFormed : ListenerDbus → Type 0
IsWellFormed l = WellFormed l.inhibitors l.throttlers l.throttled

pub All-remove {ℓ} :
    (Q : RefEntry → Type ℓ) (cookie : ℕ) (es : List RefEntry) → All Q es → All Q (remove cookie es)
unfolding remove
All-remove Q cookie [] h = tt
All-remove Q cookie (e ∷ es) h =
    let rest = All-remove Q cookie es h.1 in
    if_elim (All Q) (e.cookie == cookie) (λ _. rest) (λ _. (h.0, rest))

pub remove-Other : (cookie : ℕ) (es : List RefEntry) → Other cookie (remove cookie es)
unfolding remove
remove-Other cookie [] = tt
remove-Other cookie (e ∷ es) =
    let rest = remove-Other cookie es in
    if_elim (Other cookie) (e.cookie == cookie) (λ _. rest) (λ no. (no, rest))

remove-Distinct : (cookie : ℕ) (es : List RefEntry) → Distinct es → Distinct (remove cookie es)
unfolding remove
remove-Distinct cookie [] h = tt
remove-Distinct cookie (e ∷ es) h =
    let rest = remove-Distinct cookie es h.1 in
    if_elim Distinct (e.cookie == cookie) (λ _. rest)
      (λ _. (All-remove (λ (x : RefEntry). (x.cookie == e.cookie) ≡ false) cookie es h.0, rest))

pub remove-TableOk :
    (kind : EntryType) (cookie : ℕ) (es : List RefEntry)
    → TableOk kind es
    → TableOk kind (remove cookie es)
remove-TableOk kind cookie es h = (
  remove-Distinct cookie es h.0,
  All-remove (λ (e : RefEntry). e.entry_type ≡ kind) cookie es h.1,
)

snoc-Distinct :
    (e : RefEntry) (es : List RefEntry) → Distinct es → Other e.cookie es → Distinct (es ++ e ∷ [])
snoc-Distinct e [] h o = (tt, tt)
snoc-Distinct e (x ∷ xs) h o =
    let apart : (e.cookie == x.cookie) ≡ false = let no = o.0 in ground arith in
    (
      All-append (λ (y : RefEntry). (y.cookie == x.cookie) ≡ false) xs (e ∷ []) h.0 (apart, tt),
      snoc-Distinct e xs h.1 o.1,
    )

pub insert-TableOk :
    (kind : EntryType) (e : RefEntry) (es : List RefEntry)
    → e.entry_type ≡ kind
    → TableOk kind es
    → TableOk kind (insert e es)
unfolding insert
insert-TableOk kind e es k h =
    let left = remove-TableOk kind e.cookie es h in
    (
      snoc-Distinct e (remove e.cookie es) left.0 (remove-Other e.cookie es),
      All-append (λ (x : RefEntry). x.entry_type ≡ kind) (remove e.cookie es) (e ∷ []) left.1
          (k, tt),
    )

pub All-without {ℓ} :
    (Q : RefEntry → Type ℓ) (name : String) (es : List RefEntry)
    → All Q es
    → All Q (without name es)
unfolding without
All-without Q name [] h = tt
All-without Q name (e ∷ es) h =
    let rest = All-without Q name es h.1 in
    if_elim (All Q) (is_of name e) (λ _. rest) (λ _. (h.0, rest))

without-Distinct : (name : String) (es : List RefEntry) → Distinct es → Distinct (without name es)
unfolding without
without-Distinct name [] h = tt
without-Distinct name (e ∷ es) h =
    let rest = without-Distinct name es h.1 in
    if_elim Distinct (is_of name e) (λ _. rest)
      (λ _. (All-without (λ (x : RefEntry). (x.cookie == e.cookie) ≡ false) name es h.0, rest))

pub without-TableOk :
    (kind : EntryType) (name : String) (es : List RefEntry)
    → TableOk kind es
    → TableOk kind (without name es)
without-TableOk kind name es h =
    (without-Distinct name es h.0, All-without (λ (e : RefEntry). e.entry_type ≡ kind) name es h.1)
