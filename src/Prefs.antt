-- ===== src/Prefs.antt =====
-- src/gs-prefs.c and src/gs-prefs.h: the settings of the screen saver, their bounds, their keys,
-- and how they are read from the Xfconf channel and kept in step with it. Xfconf and the random
-- numbers of GLib are parameters.
pub mod Keys
pub mod Bounds
pub mod Refresh
pub mod Theme
use xfce4_screensaver.Base.{
  ℕ, ◌*◌, ◌≡◌, Bool, true, false, ◌||◌, Option, none, some, List, [], String, length, get_elem?,
  if◌then◌else◌, not, ◌∷◌,
}
use xfce4_screensaver.Base.Int.{ℤ, pos, negsuc, ltb_ℤ, eqb_ℤ, mul_ℕ, guint}

-- GSPrefs. A `guint` bit field is a Bool; `mode` is the enum's number, which the setter does not
-- check.
pub record Prefs : Type 0 where
  pub saver_enabled : Bool
  pub lock_enabled : Bool
  pub idle_activation_enabled : Bool
  pub sleep_activation_enabled : Bool
  pub lock_with_saver_enabled : Bool
  pub logout_enabled : Bool
  pub user_switch_enabled : Bool
  pub keyboard_enabled : Bool
  pub keyboard_displayed : Bool
  pub status_message_enabled : Bool
  pub timeout : ℕ
  pub lock_timeout : ℕ
  pub logout_timeout : ℕ
  pub cycle : ℕ
  pub fullscreen_inhibit : Bool
  pub logout_command : Option String
  pub keyboard_command : Option String
  pub themes : List String
  pub mode : ℤ

-- GSSaverMode.
abbrev pub mode_blank_only : ℤ
mode_blank_only = pos 0

abbrev pub mode_random : ℤ
mode_random = pos 1

abbrev pub mode_single : ℤ
mode_single = pos 2

-- An assignment to a number of C's `int` that lies below `lo` or above `hi`.
abbrev at_least : ℤ → ℤ → ℤ → ℤ
at_least lo fallback value = if ltb_ℤ value lo then fallback else value

abbrev at_most : ℤ → ℤ → ℤ
at_most hi value = if ltb_ℤ hi value then hi else value

unfoldable pub set_timeout : Prefs → ℤ → Prefs
set_timeout p value = record p {
  timeout = guint (at_most (pos 480) (at_least (pos 1) (pos 10) value));
}

unfoldable pub set_lock_timeout : Prefs → ℤ → Prefs
set_lock_timeout p value = record p {
  lock_timeout = guint (at_most (pos 480) (at_least (pos 0) (pos 0) value));
}

unfoldable pub set_cycle_timeout : Prefs → ℤ → Prefs
set_cycle_timeout p value = record p {
  cycle = guint (mul_ℕ (at_most (pos 480) (at_least (pos 1) (pos 1) value)) 60);
}

unfoldable pub set_logout_timeout : Prefs → ℤ → Prefs
set_logout_timeout p value = record p {
  logout_timeout = guint (mul_ℕ (at_most (pos 480) (at_least (pos 0) (pos 0) value)) 60000);
}

unfoldable pub set_mode : Prefs → ℤ → Prefs
set_mode p mode = record p { mode = mode }

unfoldable pub set_themes : Prefs → Option (List String) → Prefs
set_themes p values = record p { themes = elim values [ none ↦ [] | some values ↦ values ] }

unfoldable pub set_idle_activation_enabled : Prefs → Bool → Prefs
set_idle_activation_enabled p value = record p { idle_activation_enabled = value }

unfoldable pub set_sleep_activation_enabled : Prefs → Bool → Prefs
set_sleep_activation_enabled p value = record p { sleep_activation_enabled = value }

unfoldable pub set_saver_enabled : Prefs → Bool → Prefs
set_saver_enabled p value = record p { saver_enabled = value }

unfoldable pub set_lock_enabled : Prefs → Bool → Prefs
set_lock_enabled p value = record p { lock_enabled = value }

unfoldable pub set_lock_with_saver_enabled : Prefs → Bool → Prefs
set_lock_with_saver_enabled p value = record p { lock_with_saver_enabled = value }

unfoldable pub set_fullscreen_inhibit : Prefs → Bool → Prefs
set_fullscreen_inhibit p value = record p { fullscreen_inhibit = value }

unfoldable pub set_keyboard_enabled : Prefs → Bool → Prefs
set_keyboard_enabled p value = record p { keyboard_enabled = value }

unfoldable pub set_keyboard_displayed : Prefs → Bool → Prefs
set_keyboard_displayed p value = record p { keyboard_displayed = value }

unfoldable pub set_status_message_enabled : Prefs → Bool → Prefs
set_status_message_enabled p value = record p { status_message_enabled = value }

unfoldable pub set_logout_enabled : Prefs → Bool → Prefs
set_logout_enabled p value = record p { logout_enabled = value }

unfoldable pub set_user_switch_enabled : Prefs → Bool → Prefs
set_user_switch_enabled p value = record p { user_switch_enabled = value }

unfoldable pub set_keyboard_command : Prefs → Option String → Prefs
set_keyboard_command p value = record p { keyboard_command = value }

unfoldable pub set_logout_command : Prefs → Option String → Prefs
set_logout_command p value = record p { logout_command = value }

-- g_random_int_range (0, n) is `random n`.
unfoldable pub get_theme : (ℕ → ℕ) → Prefs → Option String
get_theme random p =
    if not p.saver_enabled || eqb_ℤ p.mode mode_blank_only
    then none
    else get_elem? p.themes (if eqb_ℤ p.mode mode_random then random (length p.themes) else 0)

-- gs_prefs_init before it reads the settings; a field that it does not assign is zero.
unfoldable pub initial : Prefs
initial = record {
  saver_enabled = true;
  lock_enabled = true;
  idle_activation_enabled = true;
  sleep_activation_enabled = true;
  lock_with_saver_enabled = true;
  logout_enabled = false;
  user_switch_enabled = false;
  keyboard_enabled = false;
  keyboard_displayed = false;
  status_message_enabled = false;
  timeout = 600000;
  lock_timeout = 0;
  logout_timeout = 14400;
  cycle = 600;
  fullscreen_inhibit = false;
  logout_command = none;
  keyboard_command = none;
  themes = [];
  mode = mode_single;
}
