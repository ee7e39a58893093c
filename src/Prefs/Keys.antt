-- ===== src/Prefs/Keys.antt =====
-- The keys of src/gs-prefs.h, and the two functions of src/gs-prefs.c that read the channel: all keys
-- at the start, and one key when Xfconf reports a change.
use xfce4_screensaver.Base.{
  Bool, true, false, Option, List, [], ◌∷◌, String, str_eq, eq_iff, if◌then◌else◌, ◌≡◌, ◌⊎◌, inl,
  inr, Bool-cases, All, arith,
}
use xfce4_screensaver.Base.Int.{ℤ, pos}
use xfce4_screensaver.Prefs.{
  Prefs, initial, set_timeout, set_lock_timeout, set_cycle_timeout, set_logout_timeout, set_mode,
  set_themes, set_idle_activation_enabled, set_sleep_activation_enabled, set_saver_enabled,
  set_lock_enabled, set_lock_with_saver_enabled, set_fullscreen_inhibit, set_keyboard_enabled,
  set_keyboard_displayed, set_status_message_enabled, set_logout_enabled, set_user_switch_enabled,
  set_keyboard_command, set_logout_command,
}

-- What the source asks of an XfconfChannel: each query has the property and a default.
pub record Channel : Type 0 where
  pub get_bool : String → Bool → Bool
  pub get_int : String → ℤ → ℤ
  pub get_string : String → String → Option String
  pub get_string_list : String → Option (List String)

abbrev pub key_idle_activation_enabled : String
key_idle_activation_enabled = "/saver/idle-activation/enabled"

abbrev pub key_lock_on_sleep : String
key_lock_on_sleep = "/lock/sleep-activation"

abbrev pub key_saver_enabled : String
key_saver_enabled = "/saver/enabled"

abbrev pub key_lock_enabled : String
key_lock_enabled = "/lock/enabled"

abbrev pub key_lock_with_saver_enabled : String
key_lock_with_saver_enabled = "/lock/saver-activation/enabled"

abbrev pub key_idle_delay : String
key_idle_delay = "/saver/idle-activation/delay"

abbrev pub key_fullscreen_inhibit : String
key_fullscreen_inhibit = "/saver/fullscreen-inhibit"

abbrev pub key_lock_with_saver_delay : String
key_lock_with_saver_delay = "/lock/saver-activation/delay"

abbrev pub key_cycle_delay : String
key_cycle_delay = "/saver/themes/cycle-delay"

abbrev pub key_mode : String
key_mode = "/saver/mode"

abbrev pub key_themes : String
key_themes = "/saver/themes/list"

abbrev pub key_keyboard_enabled : String
key_keyboard_enabled = "/lock/embedded-keyboard/enabled"

abbrev pub key_keyboard_command : String
key_keyboard_command = "/lock/embedded-keyboard/command"

abbrev pub key_keyboard_displayed : String
key_keyboard_displayed = "/lock/embedded-keyboard/displayed"

abbrev pub key_status_message_enabled : String
key_status_message_enabled = "/lock/status-messages/enabled"

abbrev pub key_logout_enabled : String
key_logout_enabled = "/lock/logout/enabled"

abbrev pub key_logout_command : String
key_logout_command = "/lock/logout/command"

abbrev pub key_logout_delay : String
key_logout_delay = "/lock/logout/delay"

abbrev pub key_user_switch_enabled : String
key_user_switch_enabled = "/lock/user-switching/enabled"

-- The keys that the source reads.
pub data Key : Type 0 where
  idle_activation_enabled lock_on_sleep saver_enabled lock_enabled lock_with_saver_enabled
        idle_delay fullscreen_inhibit lock_with_saver_delay cycle_delay mode themes keyboard_enabled
        keyboard_command keyboard_displayed status_message_enabled logout_enabled logout_command
        logout_delay user_switch_enabled :
      Key

abbrev pub name : Key → String
name idle_activation_enabled = key_idle_activation_enabled
name lock_on_sleep = key_lock_on_sleep
name saver_enabled = key_saver_enabled
name lock_enabled = key_lock_enabled
name lock_with_saver_enabled = key_lock_with_saver_enabled
name idle_delay = key_idle_delay
name fullscreen_inhibit = key_fullscreen_inhibit
name lock_with_saver_delay = key_lock_with_saver_delay
name cycle_delay = key_cycle_delay
name mode = key_mode
name themes = key_themes
name keyboard_enabled = key_keyboard_enabled
name keyboard_command = key_keyboard_command
name keyboard_displayed = key_keyboard_displayed
name status_message_enabled = key_status_message_enabled
name logout_enabled = key_logout_enabled
name logout_command = key_logout_command
name logout_delay = key_logout_delay
name user_switch_enabled = key_user_switch_enabled

unfoldable pub load_from_settings : Channel → Prefs → Prefs
unfolding set_idle_activation_enabled set_sleep_activation_enabled set_saver_enabled
    set_lock_enabled set_lock_with_saver_enabled set_timeout set_fullscreen_inhibit set_lock_timeout
    set_cycle_timeout set_mode set_themes set_keyboard_enabled set_keyboard_command
    set_keyboard_displayed set_status_message_enabled set_logout_enabled set_logout_command
    set_logout_timeout set_user_switch_enabled
load_from_settings channel p0 =
    let p1 = set_idle_activation_enabled p0 (channel.get_bool key_idle_activation_enabled true) in
    let p2 = set_sleep_activation_enabled p1 (channel.get_bool key_lock_on_sleep true) in
    let p3 = set_saver_enabled p2 (channel.get_bool key_saver_enabled true) in
    let p4 = set_lock_enabled p3 (channel.get_bool key_lock_enabled true) in
    let p5 = set_lock_with_saver_enabled p4 (channel.get_bool key_lock_with_saver_enabled true) in
    let p6 = set_timeout p5 (channel.get_int key_idle_delay (pos 5)) in
    let p7 = set_fullscreen_inhibit p6 (channel.get_bool key_fullscreen_inhibit true) in
    let p8 = set_lock_timeout p7 (channel.get_int key_lock_with_saver_delay (pos 0)) in
    let p9 = set_cycle_timeout p8 (channel.get_int key_cycle_delay (pos 10)) in
    let p10 = set_mode p9 (channel.get_int key_mode (pos 0)) in
    let p11 = set_themes p10 (channel.get_string_list key_themes) in
    let p12 = set_keyboard_enabled p11 (channel.get_bool key_keyboard_enabled false) in
    let p13 = set_keyboard_command p12 (channel.get_string key_keyboard_command "") in
    let p14 = set_keyboard_displayed p13 (channel.get_bool key_keyboard_displayed false) in
    let p15 = set_status_message_enabled p14 (channel.get_bool key_status_message_enabled true) in
    let p16 = set_logout_enabled p15 (channel.get_bool key_logout_enabled false) in
    let p17 = set_logout_command p16 (channel.get_string key_logout_command "") in
    let p18 = set_logout_timeout p17 (channel.get_int key_logout_delay (pos 120)) in
    let p19 = set_user_switch_enabled p18 (channel.get_bool key_user_switch_enabled true) in p19

unfoldable pub key_changed_cb : Channel → String → Prefs → Prefs
unfolding set_idle_activation_enabled set_sleep_activation_enabled set_saver_enabled
    set_lock_enabled set_lock_with_saver_enabled set_timeout set_fullscreen_inhibit set_lock_timeout
    set_cycle_timeout set_mode set_themes set_keyboard_enabled set_keyboard_command
    set_keyboard_displayed set_status_message_enabled set_logout_enabled set_logout_command
    set_logout_timeout set_user_switch_enabled
key_changed_cb channel property p =
    if str_eq property key_mode
    then set_mode p (channel.get_int property (pos 0))
    else if str_eq property key_themes
    then set_themes p (channel.get_string_list property)
    else if str_eq property key_idle_delay
    then set_timeout p (channel.get_int property (pos 5))
    else if str_eq property key_lock_with_saver_delay
    then set_lock_timeout p (channel.get_int property (pos 0))
    else if str_eq property key_idle_activation_enabled
    then set_idle_activation_enabled p (channel.get_bool property true)
    else if str_eq property key_lock_on_sleep
    then set_sleep_activation_enabled p (channel.get_bool property true)
    else if str_eq property key_saver_enabled
    then set_saver_enabled p (channel.get_bool property true)
    else if str_eq property key_lock_enabled
    then set_lock_enabled p (channel.get_bool property true)
    else if str_eq property key_lock_with_saver_enabled
    then set_lock_with_saver_enabled p (channel.get_bool property true)
    else if str_eq property key_fullscreen_inhibit
    then set_fullscreen_inhibit p (channel.get_bool property true)
    else if str_eq property key_cycle_delay
    then set_cycle_timeout p (channel.get_int property (pos 10))
    else if str_eq property key_keyboard_enabled
    then set_keyboard_enabled p (channel.get_bool property false)
    else if str_eq property key_keyboard_command
    then set_keyboard_command p (channel.get_string property "")
    else if str_eq property key_keyboard_displayed
    then set_keyboard_displayed p (channel.get_bool property false)
    else if str_eq property key_status_message_enabled
    then set_status_message_enabled p (channel.get_bool property true)
    else if str_eq property key_logout_enabled
    then set_logout_enabled p (channel.get_bool property false)
    else if str_eq property key_logout_delay
    then set_logout_timeout p (channel.get_int property (pos 120))
    else if str_eq property key_logout_command
    then set_logout_command p (channel.get_string property "")
    else if str_eq property key_user_switch_enabled
    then set_user_switch_enabled p (channel.get_bool property true)
    else p

-- gs_prefs_init.
unfoldable pub init : Channel → Prefs
init channel = load_from_settings channel initial

abbrev all_keys : List Key
all_keys =
    mode ∷ themes ∷ idle_delay ∷ lock_with_saver_delay ∷ idle_activation_enabled ∷ lock_on_sleep
    ∷ saver_enabled ∷ lock_enabled ∷ lock_with_saver_enabled ∷ fullscreen_inhibit ∷ cycle_delay
    ∷ keyboard_enabled ∷ keyboard_command ∷ keyboard_displayed ∷ status_message_enabled
    ∷ logout_enabled ∷ logout_delay ∷ logout_command ∷ user_switch_enabled ∷ []

-- A property is the name of a key, or of none of a list of keys.
find_key :
    (property : String) (keys : List Key)
    → ((key : Key) × (property ≡ name key)) ⊎ All (λ key. str_eq property (name key) ≡ false) keys
find_key property [] = inr tt
find_key property (key ∷ keys) = elim (Bool-cases (str_eq property (name key))) [
  | inl same ↦ inl (key, (eq_iff property (name key)).0 same)
  | inr other ↦ elim (find_key property keys) [
    | inl found ↦ inl found
    | inr none_of ↦ inr (other, none_of)
  ]
]

unknown_key :
    (channel : Channel) (property : String) (p : Prefs)
    → All (λ key. str_eq property (name key) ≡ false) all_keys
    → key_changed_cb channel property p ≡ p
unfolding key_changed_cb
unknown_key channel property p h = ground arith

-- A reported property is one of the keys, or the report changes nothing.
pub key_changed_cb_cases :
    (channel : Channel) (property : String) (p : Prefs)
    → ((key : Key) × (property ≡ name key)) ⊎ (key_changed_cb channel property p ≡ p)
key_changed_cb_cases channel property p = elim (find_key property all_keys) [
  | inl found ↦ inl found
  | inr none_of ↦ inr (unknown_key channel property p none_of)
]
