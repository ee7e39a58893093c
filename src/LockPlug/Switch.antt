-- ===== src/LockPlug/Switch.antt =====
-- src/gs-lock-plug.c: the buttons to switch the user and to log out, and the construction.
use xfce4_screensaver.Base.{
  ℕ, Bool, true, false, ◌||◌, not, Option, none, some, List, [], String, if◌then◌else◌, ◌==◌,
}
use xfce4_screensaver.LockPlug.{
  Plug, Toolkit, toggle_infobar_visibility, gs_lock_plug_set_sensitive, remove_response_idle,
}

-- What do_user_switch starts: a command, a call to a display manager on the system bus, or nothing.
pub data Switch : Type 0 where
  spawn_command : String → Switch
  switch_to_greeter nothing : Switch

unfoldable pub do_user_switch : Toolkit → Switch
do_user_switch t =
    if t.is_running "mdm"
    then spawn_command "mdmflexiserver --startnew Standard"
    else if t.is_running "gdm" || t.is_running "gdm3" || t.is_running "gdm-binary"
    then spawn_command "gdmflexiserver --startnew Standard"
    else if t.is_running "lightdm" || t.is_running "sddm"
    then switch_to_greeter
    else nothing

-- switch_user_button_clicked, up to do_user_switch.
unfoldable pub switch_user_button_clicked : Plug → Plug
unfolding remove_response_idle gs_lock_plug_set_sensitive
switch_user_button_clicked p = record (gs_lock_plug_set_sensitive false (remove_response_idle p)) {
  response_idle = true;
  busy = true;
}

-- logout_button_clicked: the arguments that are started. GLib's parser of a command is a parameter.
unfoldable pub logout_button_clicked : (String → Option (List String)) → Plug → Option (List String)
logout_button_clicked parse p = elim p.logout_command [ none ↦ none | some command ↦ parse command ]

unfoldable pub is_equal : Bool → Bool → Bool
is_equal true b = b
is_equal false b = not b

unfoldable pub gs_lock_plug_set_logout_enabled : Bool → Plug → Plug
unfolding is_equal
gs_lock_plug_set_logout_enabled enabled p =
    if is_equal p.logout_enabled enabled
    then p
    else record p { logout_enabled = enabled; logout_shown = enabled }

unfoldable pub gs_lock_plug_set_monitor_index : ℕ → Plug → Plug
gs_lock_plug_set_monitor_index index p =
    if p.monitor_index == index then p else record p { monitor_index = index }

unfoldable pub gs_lock_plug_set_logout_command : Option String → Plug → Plug
gs_lock_plug_set_logout_command command p = record p { logout_command = command }

unfoldable pub has_text : Option String → Bool
has_text none = false
has_text (some x) = true

unfoldable pub gs_lock_plug_set_status_message : Option String → Plug → Plug
unfolding toggle_infobar_visibility has_text
gs_lock_plug_set_status_message message p =
    toggle_infobar_visibility
      (record p { status_message = message; status_shown = has_text message })

unfoldable pub gs_lock_plug_set_switch_enabled : Toolkit → Bool → Plug → Plug
unfolding is_equal
gs_lock_plug_set_switch_enabled t enabled p =
    let r = record p { switch_enabled = enabled } in
    if is_equal p.switch_enabled enabled
    then p
    else if not enabled
    then record r { switch_shown = false }
    else if t.is_running "mdm"
    then record r { switch_shown = true }
    else if t.is_running "gdm" || t.is_running "gdm3" || t.is_running "gdm-binary"
    then record r { switch_shown = true }
    else if t.is_running "lightdm" || t.is_running "sddm"
    then record r { switch_shown = true }
    else record r { switch_shown = false }

-- The private data, and the widgets as the interface's file and gs_lock_plug_init leave them; the
-- properties are set after it.
unfoldable pub gs_lock_plug_init : Plug
unfolding toggle_infobar_visibility
gs_lock_plug_init = toggle_infobar_visibility (record {
  monitor_index = 0;
  caps_lock_on = false;
  switch_enabled = false;
  logout_enabled = false;
  logout_command = none;
  status_message = none;
  cancel_timeout = false;
  response_idle = false;
  key_events = [];
  entry_text = "";
  entry_sensitive = true;
  entry_shown = true;
  entry_visibility = false;
  conceal_icon = false;
  action_area_sensitive = true;
  unlock_sensitive = true;
  prompt = "";
  message = "";
  status_shown = false;
  prompt_shown = false;
  capslock_shown = false;
  message_shown = false;
  infobar_shown = false;
  logout_shown = false;
  switch_shown = false;
  busy = false;
})

-- The options that gs_lock_plug_new takes.
pub record Options : Type 0 where
  pub logout_enabled : Bool
  pub logout_command : Option String
  pub switch_enabled : Bool
  pub status_message : Option String
  pub monitor_index : ℕ

unfoldable pub gs_lock_plug_new : Toolkit → Options → Plug → Plug
unfolding gs_lock_plug_set_logout_enabled gs_lock_plug_set_logout_command
    gs_lock_plug_set_switch_enabled gs_lock_plug_set_status_message gs_lock_plug_set_monitor_index
gs_lock_plug_new t o p = gs_lock_plug_set_monitor_index o.monitor_index (
    gs_lock_plug_set_status_message o.status_message (
      gs_lock_plug_set_switch_enabled t o.switch_enabled (
        gs_lock_plug_set_logout_command o.logout_command
          (gs_lock_plug_set_logout_enabled o.logout_enabled p))))
