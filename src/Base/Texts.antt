-- ===== src/Base/Texts.antt =====
-- A text that begins with another contains it.
use Prim.Native.Nat.{ℕ, zero, compare as compare_ℕ}
use Prim.Native.Char.{code}
use Prim.Native.String.append
use Prim.Native.String.find
use Prim.Native.String.{String, [], ◌∷◌, ◌++◌, len, find, same, begins}
use text.Mathlib.Text.{find?, is_le, when}
use mathlib.Core.Path.{◌≡◌, refl, ◌∙◌, ap}
use mathlib.Core.Bool.{true}
use mathlib.Core.Option.{some}
use native.Mathlib.Omega.{arith}

same_code : (n y m : ℕ) → same (compare_ℕ n n) y m ≡ y
same_code n y m = ground arith

begins-append : (t u : String) (y n : ℕ) → begins (t ++ u) t y n ≡ y
begins-append [] u y n = refl
begins-append (d ∷ t) u y n =
    ap (λ s. begins s (d ∷ t) y n) (append.cons d t u)
    ∙ same_code (code d) (begins (t ++ u) t y n) n
    ∙ begins-append t u y n

find-append : (t u : String) → find (t ++ u) t ≡ zero
find-append [] [] = ap (λ s. find s []) (append.nil []) ∙ find.nil []
find-append [] (c ∷ u) = ap (λ s. find s []) (append.nil (c ∷ u)) ∙ find.cons c u []
find-append (d ∷ t) u =
    ap (λ s. find s (d ∷ t)) (append.cons d t u)
    ∙ find.cons d (t ++ u) (d ∷ t)
    ∙ same_code (code d) _ _
    ∙ begins-append t u zero _

is_le-zero : (n : ℕ) → is_le (compare_ℕ zero n) ≡ true
is_le-zero n = ground arith

pub find?-append : (t u : String) → find? (t ++ u) t ≡ some 0
find?-append t u =
    ap (λ n. when (is_le (compare_ℕ n (len (t ++ u)))) n) (find-append t u)
    ∙ ap (λ b. when b zero) (is_le-zero (len (t ++ u)))
