-- ===== src/LockPlug/Expand.antt =====
-- src/gs-lock-plug.c: expand_string, by which the labels get the names of the user and the machine. A
-- text is the list of its characters' code points.
use xfce4_screensaver.Base.{
  ℕ, false, ◌||◌, Option, none, some, List, [], ◌∷◌, ◌++◌, ◌==◌, if◌then◌else◌, ◌≡◌, refl, ap, ◌∙◌,
  arith, if_elim,
}

-- What the system answers; a name that it does not have leaves nothing.
pub record Names : Type 0 where
  pub display : Option (List ℕ)
  pub host_name : List ℕ
  pub machine : List ℕ
  pub nodename : List ℕ
  pub release : List ℕ
  pub real_name : Option (List ℕ)
  pub sysname : List ℕ
  pub user_name : Option (List ℕ)

unfoldable pub append_name : Option (List ℕ) → List ℕ
append_name none = []
append_name (some name) = name

abbrev pub backslash : ℕ
backslash = 92

abbrev pub percent : ℕ
percent = 37

abbrev pub letter_n : ℕ
letter_n = 110

abbrev pub newline : ℕ
newline = 10

-- The switch over the character after a %; an unknown one leaves nothing.
unfoldable pub escape_code : Names → ℕ → List ℕ
unfolding append_name
escape_code names ch =
    if ch == percent
    then percent ∷ []
    else if ch == 99
    then []
    else if ch == 100
    then append_name names.display
    else if ch == 104
    then names.host_name
    else if ch == 109
    then names.machine
    else if ch == letter_n
    then names.nodename
    else if ch == 114
    then names.release
    else if ch == 82
    then append_name names.real_name
    else if ch == 115
    then names.sysname
    else if ch == 85
    then append_name names.user_name
    else []

-- The loop of expand_string: an escape at the end of the text ends it.
unfoldable pub expand_string : Names → List ℕ → List ℕ
unfolding escape_code
expand_string names [] = []
expand_string names (ch ∷ []) = if ch == backslash || ch == percent then [] else ch ∷ []
expand_string names (ch ∷ (next ∷ text)) =
    let after = expand_string names text in
    let rest = expand_string names (next ∷ text) in
    if ch == backslash
    then (if next == letter_n then newline else next) ∷ after
    else if ch == percent
    then escape_code names next ++ after
    else ch ∷ rest

-- A text with its escape characters escaped.
unfoldable pub escaped : List ℕ → List ℕ
escaped [] = []
escaped (ch ∷ text) =
    let rest = escaped text in
    if ch == backslash
    then backslash ∷ backslash ∷ rest
    else if ch == percent
    then percent ∷ percent ∷ rest
    else ch ∷ rest

expand_string-plain :
    (names : Names) (ch : ℕ) (text : List ℕ)
    → (ch == backslash) ≡ false
    → (ch == percent) ≡ false
    → expand_string names (ch ∷ text) ≡ ch ∷ expand_string names text
unfolding expand_string
expand_string-plain names ch [] b p = ground arith
expand_string-plain names ch (next ∷ text) b p = ground arith

-- A text whose backslashes and percent signs are escaped, a backslash by a backslash and a percent
-- sign by a percent sign, expands to the text, whatever the names are.
pub expand_string-escaped :
    (names : Names) (text : List ℕ) → expand_string names (escaped text) ≡ text
unfolding expand_string escaped escape_code
expand_string-escaped names [] = refl
expand_string-escaped names (ch ∷ text) =
    let R = λ (e : List ℕ). expand_string names e ≡ ch ∷ text in
    let rest = expand_string-escaped names text in
    if_elim R (ch == backslash)
      (λ b. let is : ch ≡ backslash = ground arith in rw is (ap (λ r. backslash ∷ r) rest))
      λ b.
        if_elim R (ch == percent)
          (λ p. let is : ch ≡ percent = ground arith in rw is (ap (λ r. percent ∷ r) rest))
          (λ p. expand_string-plain names ch (escaped text) b p ∙ ap (λ r. ch ∷ r) rest)
