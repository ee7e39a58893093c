-- ===== src/Prefs/Refresh.antt =====
-- Reading one changed key brings the settings up to date: the incremental path of src/gs-prefs.c
-- (key_changed_cb) against the full one (gs_prefs_load_from_settings).
use xfce4_screensaver.Base.{◌≡◌, Bool, true, false, String, str_eq, arith}
use xfce4_screensaver.Base.Int.{ℤ, pos}
use xfce4_screensaver.Prefs.{Prefs}
use xfce4_screensaver.Prefs.Keys.{
  Channel, Key, name, load_from_settings, key_changed_cb, mode, key_idle_activation_enabled,
  key_lock_on_sleep, key_saver_enabled, key_lock_enabled, key_lock_with_saver_enabled,
  key_idle_delay, key_fullscreen_inhibit, key_lock_with_saver_delay, key_cycle_delay, key_mode,
  key_themes, key_keyboard_enabled, key_keyboard_command, key_keyboard_displayed,
  key_status_message_enabled, key_logout_enabled, key_logout_command, key_logout_delay,
  key_user_switch_enabled,
}

-- Two states of the channel that answer alike for every property but `k`.
abbrev pub AgreeBut : String → Channel → Channel → Type 0
AgreeBut k c d =
    (j : String) (b : Bool) (n : ℤ) (s : String)
    → str_eq k j ≡ false
    → (c.get_bool j b ≡ d.get_bool j b)
      × (c.get_int j n ≡ d.get_int j n)
      × (c.get_string j s ≡ d.get_string j s)
      × (c.get_string_list j ≡ d.get_string_list j)

-- When the channel changes only in one key, the report of that key brings settings that were read
-- before the change to what a full read gives after it.
pub key_changed_cb-load :
    (key : Key) (c d : Channel) (p : Prefs)
    → AgreeBut (name key) c d
    → key_changed_cb d (name key) (load_from_settings c p) ≡ load_from_settings d p
unfolding load_from_settings key_changed_cb
key_changed_cb-load mode c d p h = ground (
  arith,
  h key_idle_activation_enabled true (pos 0) "",
  h key_lock_on_sleep true (pos 0) "",
  h key_saver_enabled true (pos 0) "",
  h key_lock_enabled true (pos 0) "",
  h key_lock_with_saver_enabled true (pos 0) "",
  h key_idle_delay true (pos 5) "",
  h key_fullscreen_inhibit true (pos 0) "",
  h key_lock_with_saver_delay true (pos 0) "",
  h key_cycle_delay true (pos 10) "",
  h key_mode true (pos 0) "",
  h key_themes true (pos 0) "",
  h key_keyboard_enabled false (pos 0) "",
  h key_keyboard_command true (pos 0) "",
  h key_keyboard_displayed false (pos 0) "",
  h key_status_message_enabled true (pos 0) "",
  h key_logout_enabled false (pos 0) "",
  h key_logout_command true (pos 0) "",
  h key_logout_delay true (pos 120) "",
  h key_user_switch_enabled true (pos 0) "",
)
key_changed_cb-load _ c d p h = ground (
  arith,
  h key_idle_activation_enabled true (pos 0) "",
  h key_lock_on_sleep true (pos 0) "",
  h key_saver_enabled true (pos 0) "",
  h key_lock_enabled true (pos 0) "",
  h key_lock_with_saver_enabled true (pos 0) "",
  h key_idle_delay true (pos 5) "",
  h key_fullscreen_inhibit true (pos 0) "",
  h key_lock_with_saver_delay true (pos 0) "",
  h key_cycle_delay true (pos 10) "",
  h key_mode true (pos 0) "",
  h key_themes true (pos 0) "",
  h key_keyboard_enabled false (pos 0) "",
  h key_keyboard_command true (pos 0) "",
  h key_keyboard_displayed false (pos 0) "",
  h key_status_message_enabled true (pos 0) "",
  h key_logout_enabled false (pos 0) "",
  h key_logout_command true (pos 0) "",
  h key_logout_delay true (pos 120) "",
  h key_user_switch_enabled true (pos 0) "",
)
