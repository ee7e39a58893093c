-- ===== src/ListenerDbus/Tables/Keys.antt =====
-- listener_generate_unique_key (src/gs-listener-dbus.c): its loop ends once it has drawn more
-- different numbers than the table has entries.
use xfce4_screensaver.Base.{
  ℕ, ◌≤◌, ◌<◌, ◌≡◌, Bool, true, false, Option, none, some, List, [], ◌∷◌, All, if_elim, ◌==◌, refl,
  arith, ◌⊎◌, inl, inr, length, ◌∙◌, ap, ◌||◌,
}
use xfce4_screensaver.ListenerDbus.{RefEntry}
use xfce4_screensaver.ListenerDbus.Refs.{remove, lookup, is_none, generate_unique_key}

-- The numbers are different from each other.
abbrev pub Apart : List ℕ → Type 0
Apart [] = Unit
Apart (x ∷ xs) = All (λ (y : ℕ). (y == x) ≡ false) xs × Apart xs

-- Each of the numbers is the cookie of an entry.
abbrev Used : List ℕ → List RefEntry → Type 0
Used draws es = All (λ (x : ℕ). is_none (lookup x es) ≡ false) draws

lookup-remove :
    (x cookie : ℕ) (es : List RefEntry)
    → (x == cookie) ≡ false
    → lookup x (remove cookie es) ≡ lookup x es
unfolding lookup remove
lookup-remove x cookie [] away = refl
lookup-remove x cookie (e ∷ es) away = let rest = lookup-remove x cookie es away in ground arith

length-remove : (cookie : ℕ) (es : List RefEntry) → length (remove cookie es) ≤ length es
unfolding remove
length-remove cookie [] = omega arith
length-remove cookie (e ∷ es) =
    let rest = length-remove cookie es in
    if_elim (λ (r : List RefEntry). length r ≤ length (e ∷ es)) (e.cookie == cookie)
      (λ _. omega arith) (λ _. omega arith)

length-remove_found :
    (cookie : ℕ) (es : List RefEntry)
    → is_none (lookup cookie es) ≡ false
    → length (remove cookie es) < length es
unfolding remove lookup is_none
length-remove_found cookie [] found = absurd (cc)
length-remove_found cookie (e ∷ es) found =
    let rest = length-remove cookie es in
    if_elim (λ (r : List RefEntry). length r < length (e ∷ es)) (e.cookie == cookie)
      (λ _. omega arith)
      λ away. let later = length-remove_found cookie es (ground arith) in omega arith

still-Used :
    (x : ℕ) (ys : List ℕ) (es : List RefEntry)
    → All (λ (y : ℕ). (y == x) ≡ false) ys
    → Used ys es
    → Used ys (remove x es)
unfolding is_none
still-Used x [] es a u = tt
still-Used x (y ∷ ys) es a u =
    (ap is_none (lookup-remove y x es a.0) ∙ u.0, still-Used x ys es a.1 u.1)

pub is_drawn : ℕ → List ℕ → Bool
is_drawn x [] = false
is_drawn x (y ∷ ys) = y == x || is_drawn x ys

abbrev Found : List ℕ → List RefEntry → Option ℕ → Type 0
Found draws es o =
    (cookie : ℕ) × (o ≡ some cookie) × (lookup cookie es ≡ none) × (is_drawn cookie draws ≡ true)

pub is_none-true : (o : Option RefEntry) → is_none o ≡ true → o ≡ none
unfolding is_none
is_none-true none e = refl
is_none-true (some x) e = absurd (cc)

finds :
    (draws : List ℕ) (es : List RefEntry)
    → Found draws es (generate_unique_key draws es) ⊎ Used draws es
unfolding generate_unique_key is_drawn
finds [] es = inr tt
finds (x ∷ xs) es =
    let free = is_none (lookup x es) in
    if_elim (λ (o : Option ℕ). Found (x ∷ xs) es o ⊎ Used (x ∷ xs) es) free
      (λ e. inl (x, refl, is_none-true (lookup x es) e, ground arith))
      λ e. elim (finds xs es) [
        | inl (c, e1, e2, e3) ↦ inl (c, e1, e2, ground arith)
        | inr used ↦ inr (e, used)
      ]

-- More different numbers than there are entries are not all cookies.
Used-bound :
    (draws : List ℕ) (es : List RefEntry) → Apart draws → Used draws es → length draws ≤ length es
Used-bound [] es a u = omega arith
Used-bound (x ∷ xs) es a u =
    let fewer = length-remove_found x es u.0 in
    let rest = Used-bound xs (remove x es) a.1 (still-Used x xs es a.0 u.1) in omega arith

-- The loop ends, where the numbers that it draws all differ from each other and are more than the
-- entries of the table: the number that it returns is one of those drawn, and no entry of the table
-- has it as its cookie.
pub generate_unique_key-ends :
    (draws : List ℕ) (es : List RefEntry)
    → Apart draws
    → length es < length draws
    → (cookie : ℕ) × (generate_unique_key draws es ≡ some cookie)
      × (lookup cookie es ≡ none)
      × (is_drawn cookie draws ≡ true)
generate_unique_key-ends draws es a h = elim (finds draws es) [
  | inl found ↦ found
  | inr used ↦ absurd (let bound = Used-bound draws es a used in omega arith)
]
