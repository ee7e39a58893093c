-- ===== src/Base/Branches.antt =====
-- To prove a statement of a branching result from its branches.
use xfce4_screensaver.Base.Tests.{if◌then◌else◌}
use xfce4_screensaver.Base.Lists.{OnSome}
use mathlib.Core.Path.{◌≡◌, refl}
use mathlib.Core.Bool.{Bool, true, false}
use mathlib.Core.Option.{Option, none, some}

pub if_elim {ℓ κ} :
    {A : Type ℓ} (R : A → Type κ) (c : Bool) {a b : A}
    → (c ≡ true → R a)
    → (c ≡ false → R b)
    → R (if c then a else b)
if_elim R true yes_case no_case = yes_case refl
if_elim R false yes_case no_case = no_case refl

pub option_elim {ℓ κ ν μ} :
    {A : Type ℓ} {B : Type κ} (R : B → Type ν) (K : A → Type μ) (o : Option A) {b : B} {f : A → B}
    → OnSome K o
    → R b
    → ((x : A) → K x → R (f x))
    → R (elim o [ none ↦ b | some x ↦ f x ])
option_elim R K none h none_case some_case = none_case
option_elim R K (some x) h none_case some_case = some_case x h

pub option_cases {ℓ κ ν} :
    {A : Type ℓ} {B : Type κ} (R : B → Type ν) (o : Option A) {b : B} {f : A → B}
    → (o ≡ none → R b)
    → ((x : A) → o ≡ some x → R (f x))
    → R (elim o [ none ↦ b | some x ↦ f x ])
option_cases R none none_case some_case = none_case refl
option_cases R (some x) none_case some_case = some_case x refl

pub OnSome-anything {ℓ} : {A : Type ℓ} (o : Option A) → OnSome {ℓ, 0} (λ _. Unit) o
OnSome-anything none = tt
OnSome-anything (some x) = tt

-- Two branching results on one condition agree if their branches do.
pub if_same {ℓ} :
    {A : Type ℓ} (c : Bool) {a a' b b' : A}
    → (c ≡ true → a ≡ a')
    → (c ≡ false → b ≡ b')
    → (if c then a else b) ≡ (if c then a' else b')
if_same true yes_case no_case = yes_case refl
if_same false yes_case no_case = no_case refl
