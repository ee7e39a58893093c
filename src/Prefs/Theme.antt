-- ===== src/Prefs/Theme.antt =====
-- The choice of a theme, and the delay of the logout button (src/gs-prefs.c).
use xfce4_screensaver.Base.{
  ℕ, ◌≡◌, ◌<◌, Bool, true, false, not, ◌||◌, none, some, length, get_elem?, get_elem?-total, arith,
  if◌then◌else◌, if_elim, String,
}
use xfce4_screensaver.Base.Int.{eqb_ℤ, pos}
use xfce4_screensaver.Prefs.{Prefs, get_theme, mode_blank_only, mode_random, set_logout_timeout}
use xfce4_screensaver.Window.Dialog.{logout_option}

chosen-lt :
    (random : ℕ → ℕ) (b : Bool) (n : ℕ)
    → ((n : ℕ) → 0 < n → random n < n)
    → 0 < n
    → (if b then random n else 0) < n
chosen-lt random true n bound h = bound n h
chosen-lt random false n bound h = h

-- When the saver is on, its mode is not "blank only", and there are themes, a theme of the list is
-- chosen: the one at a random position in the mode "random", provided that the random numbers lie
-- below the bound asked for, and else the first.
pub get_theme_chooses :
    (random : ℕ → ℕ) (p : Prefs)
    → ((n : ℕ) → 0 < n → random n < n)
    → p.saver_enabled ≡ true
    → eqb_ℤ p.mode mode_blank_only ≡ false
    → 0 < length p.themes
    → (theme : String) × (get_theme random p ≡ some theme)
      × (get_elem? p.themes (if eqb_ℤ p.mode mode_random then random (length p.themes) else 0)
          ≡ some theme)
unfolding get_theme
get_theme_chooses random p bound on mode h =
    let i = if eqb_ℤ p.mode mode_random then random (length p.themes) else 0 in
    let (theme, e) =
      get_elem?-total p.themes i
        (chosen-lt random (eqb_ℤ p.mode mode_random) (length p.themes) bound h) in
    (
      theme,
      if_elim (λ o. o ≡ some theme) (not p.saver_enabled || eqb_ℤ p.mode mode_blank_only)
          (λ off. absurd (ground arith)) (λ _. e),
      e,
    )

-- The delay of the logout button is stored in milliseconds and compared with seconds: with a delay
-- of one minute the dialog has no logout command before 60,000 seconds have passed.
pub logout_option_late :
    (p : Prefs) (elapsed : ℕ)
    → elapsed < 60001
    → logout_option (set_logout_timeout p (pos 1)) elapsed ≡ none
unfolding logout_option set_logout_timeout
logout_option_late p elapsed h = ground arith
