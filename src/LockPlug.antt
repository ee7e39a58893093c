-- ===== src/LockPlug.antt =====
-- src/gs-lock-plug.c: the unlock dialog's window: its labels, its entry, its buttons and timers. What
-- GTK's entry does with a key, the conversions of texts and the processes that run are parameters.
pub mod Run
pub mod Switch
pub mod Greeter
pub mod Timers
pub mod Expand
pub mod Typing
pub mod Labels
use xfce4_screensaver.Base.{
  ℕ, Bool, true, false, ◌&&◌, ◌||◌, not, Option, none, some, List, [], ◌∷◌, String, str_eq,
  if◌then◌else◌,
}

-- A key event: its keyval is Escape or another, and the text that it stands for.
pub record KeyEvent : Type 0 where
  pub is_escape : Bool
  pub text : String

-- GSLockPlugPrivate, and what the source reads and sets of its widgets. key_events has the last first.
pub record Plug : Type 0 where
  pub monitor_index : ℕ
  pub caps_lock_on : Bool
  pub switch_enabled : Bool
  pub logout_enabled : Bool
  pub logout_command : Option String
  pub status_message : Option String
  pub cancel_timeout : Bool
  pub response_idle : Bool
  pub key_events : List KeyEvent
  pub entry_text : String
  pub entry_sensitive : Bool
  pub entry_shown : Bool
  pub entry_visibility : Bool
  pub conceal_icon : Bool
  pub action_area_sensitive : Bool
  pub unlock_sensitive : Bool
  pub prompt : String
  pub message : String
  pub status_shown : Bool
  pub prompt_shown : Bool
  pub capslock_shown : Bool
  pub message_shown : Bool
  pub infobar_shown : Bool
  pub logout_shown : Bool
  pub switch_shown : Bool
  pub busy : Bool

-- What GTK and GLib do: the entry's text after a key, the text in the locale's encoding, which texts
-- are UTF-8; and the processes that run.
pub record Toolkit : Type 0 where
  pub type_key : KeyEvent → String → String
  pub locale_from_utf8 : String → Option String
  pub is_utf8 : String → Bool
  pub is_running : String → Bool

-- GSLockPlugResponse, without the response that is none.
pub data Response : Type 0 where
  ok cancel : Response

unfoldable pub toggle_infobar_visibility : Plug → Plug
toggle_infobar_visibility p = record p {
  infobar_shown =
      if p.status_shown
      then true
      else if p.prompt_shown
      then true
      else if p.capslock_shown
      then true
      else p.message_shown;
}

unfoldable pub set_status_text : Toolkit → String → Plug → Plug
unfolding toggle_infobar_visibility
set_status_text t text p =
    if t.is_utf8 text
    then toggle_infobar_visibility
        (record p { message = text; message_shown = not (str_eq text "") })
    else p

unfoldable pub gs_lock_plug_set_sensitive : Bool → Plug → Plug
gs_lock_plug_set_sensitive sensitive p = record p {
  entry_sensitive = sensitive;
  action_area_sensitive = sensitive;
}

unfoldable pub remove_cancel_timeout : Plug → Plug
remove_cancel_timeout p = record p { cancel_timeout = false }

unfoldable pub remove_response_idle : Plug → Plug
remove_response_idle p = record p { response_idle = false }

-- gs_lock_plug_response, before the signal "response" is emitted.
unfoldable pub gs_lock_plug_response : Response → Plug → Plug
unfolding remove_cancel_timeout remove_response_idle
gs_lock_plug_response ok p = remove_response_idle (remove_cancel_timeout p)
gs_lock_plug_response cancel p = record (remove_response_idle (remove_cancel_timeout p)) {
  entry_text = "";
}

unfoldable pub response_cancel_idle : Plug → Plug
unfolding gs_lock_plug_response
response_cancel_idle p = gs_lock_plug_response cancel (record p { response_idle = false })

-- `expired` is the translated text.
unfoldable pub dialog_timed_out : Toolkit → String → Plug → Plug
unfolding gs_lock_plug_set_sensitive set_status_text remove_response_idle
dialog_timed_out t expired p =
    let told =
      set_status_text t expired
        (gs_lock_plug_set_sensitive false (record p { cancel_timeout = false })) in
    record (remove_response_idle told) { response_idle = true }

unfoldable pub capslock_update : Bool → Plug → Plug
unfolding toggle_infobar_visibility
capslock_update on p =
    toggle_infobar_visibility (record p { caps_lock_on = on; capslock_shown = on })

unfoldable pub restart_cancel_timeout : Plug → Plug
unfolding remove_cancel_timeout
restart_cancel_timeout p = record (remove_cancel_timeout p) { cancel_timeout = true }

-- gs_lock_plug_get_text: the text, or `none` where it has no form in the locale; the entry is cleared.
unfoldable pub gs_lock_plug_get_text : Toolkit → Plug → Option String × Plug
gs_lock_plug_get_text t p = (t.locale_from_utf8 p.entry_text, record p { entry_text = "" })

-- gs_lock_plug_show; the user's picture is left out.
unfoldable pub gs_lock_plug_show : Bool → Plug → Plug
unfolding capslock_update restart_cancel_timeout
gs_lock_plug_show caps p = restart_cancel_timeout (capslock_update caps p)

unfoldable pub queue_key_event : KeyEvent → Plug → Plug
queue_key_event k p = record p { key_events = k ∷ p.key_events }

-- The loop of forward_key_events over the reversed list; GTK gives the keys to the entry.
unfoldable pub forward_each : Toolkit → List KeyEvent → Plug → Plug
forward_each t [] p = record p { key_events = [] }
forward_each t (k ∷ ks) p =
    forward_each t ks (record p { key_events = ks; entry_text = t.type_key k p.entry_text })

-- g_list_reverse.
unfoldable pub reverse_onto : List KeyEvent → List KeyEvent → List KeyEvent
reverse_onto [] done = done
reverse_onto (k ∷ ks) done = reverse_onto ks (k ∷ done)

unfoldable pub forward_key_events : Toolkit → Plug → Plug
unfolding forward_each reverse_onto
forward_key_events t p = forward_each t (reverse_onto p.key_events []) p

unfoldable pub gs_lock_plug_enable_prompt : Toolkit → String → Bool → Plug → Plug
unfolding toggle_infobar_visibility forward_key_events restart_cancel_timeout
gs_lock_plug_enable_prompt t message visible p =
    let asking = toggle_infobar_visibility (record p {
      unlock_sensitive = true;
      prompt = message;
      prompt_shown = not (str_eq message "");
    }) in
    restart_cancel_timeout (
      forward_key_events t (record asking {
        entry_visibility = visible;
        conceal_icon = visible;
        entry_sensitive = true;
        entry_shown = true;
      }))

unfoldable pub gs_lock_plug_disable_prompt : Plug → Plug
gs_lock_plug_disable_prompt p = record p { unlock_sensitive = false; entry_sensitive = false }

-- A message that is NULL is shown as an empty one.
unfoldable pub gs_lock_plug_show_message : Toolkit → Option String → Plug → Plug
unfolding set_status_text
gs_lock_plug_show_message t message p =
    set_status_text t (elim message [ none ↦ "" | some text ↦ text ]) p

-- entry_icon_press_cb; `secondary` is whether it is the icon at the end.
unfoldable pub entry_icon_press_cb : Bool → Plug → Plug
entry_icon_press_cb secondary p = if not secondary then p else record p {
  entry_visibility = not p.entry_visibility;
  conceal_icon = not p.entry_visibility;
}

-- entry_key_press: where it lets a key through, GTK gives it to the entry, which has the focus.
unfoldable pub entry_key_press : Toolkit → KeyEvent → Plug → Plug
unfolding restart_cancel_timeout queue_key_event
entry_key_press t k p =
    let r = restart_cancel_timeout p in
    if r.entry_shown && r.entry_sensitive
    then record r { entry_text = t.type_key k r.entry_text }
    else if str_eq k.text ""
    then r
    else queue_key_event k r
