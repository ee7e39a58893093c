-- ===== src/LockPlug/Labels.antt =====
-- What the dialog shows is what its state says (src/gs-lock-plug.c).
pub mod Handled
pub mod Fresh
use xfce4_screensaver.Base.{
  Bool, true, false, ◌&&◌, ◌||◌, not, Option, none, some, List, [], ◌∷◌, String, str_eq, if_elim,
  ◌≡◌, refl, if◌then◌else◌, arith, ◌==◌,
}
use xfce4_screensaver.LockPlug.{
  KeyEvent, Plug, Toolkit, Response, ok, cancel, toggle_infobar_visibility, set_status_text,
  gs_lock_plug_set_sensitive, remove_cancel_timeout, remove_response_idle, gs_lock_plug_response,
  response_cancel_idle, dialog_timed_out, capslock_update, restart_cancel_timeout,
  gs_lock_plug_show, queue_key_event, entry_icon_press_cb, entry_key_press, forward_each,
  forward_key_events, reverse_onto, gs_lock_plug_enable_prompt,
}
use xfce4_screensaver.LockPlug.Switch.{
  switch_user_button_clicked, has_text, is_equal, Options, gs_lock_plug_set_logout_enabled,
  gs_lock_plug_set_monitor_index, gs_lock_plug_set_logout_command, gs_lock_plug_set_status_message,
  gs_lock_plug_set_switch_enabled, gs_lock_plug_init, gs_lock_plug_new,
}
use xfce4_screensaver.LockPlug.Run.{
  Event, key_press, key_release, unlock_clicked, cancel_clicked, switch_clicked, delete_event,
  cancel_timer, response_timer, keymap_changed, icon_press, shown, handle,
  gs_lock_plug_key_release_event, gs_lock_plug_run,
}

-- The info bar is shown while one of its labels is, a label while it has something to say, and the
-- entry's icon says what a press of it does.
pub record IsLabelled (p : Plug) : Type 0 where
  pub infobar :
      p.infobar_shown ≡ (p.status_shown || p.prompt_shown || p.capslock_shown || p.message_shown)
  pub status : p.status_shown ≡ has_text p.status_message
  pub prompt : p.prompt_shown ≡ not (str_eq p.prompt "")
  pub caps : p.capslock_shown ≡ p.caps_lock_on
  pub message : p.message_shown ≡ not (str_eq p.message "")
  pub icon : p.conceal_icon ≡ p.entry_visibility

any_shown :
    (a b c d : Bool)
    → (if a then true else if b then true else if c then true else d) ≡ (a || b || c || d)
any_shown true b c d = refl
any_shown false true c d = refl
any_shown false false true d = refl
any_shown false false false d = refl

pub toggle-IsLabelled :
    (p : Plug)
    → p.status_shown ≡ has_text p.status_message
    → p.prompt_shown ≡ not (str_eq p.prompt "")
    → p.capslock_shown ≡ p.caps_lock_on
    → p.message_shown ≡ not (str_eq p.message "")
    → p.conceal_icon ≡ p.entry_visibility
    → IsLabelled (toggle_infobar_visibility p)
unfolding toggle_infobar_visibility
toggle-IsLabelled p s q c m i = record {
  infobar = any_shown p.status_shown p.prompt_shown p.capslock_shown p.message_shown;
  status = s;
  prompt = q;
  caps = c;
  message = m;
  icon = i;
}

pub set_status_text-IsLabelled :
    (t : Toolkit) (text : String) (p : Plug) → IsLabelled p → IsLabelled (set_status_text t text p)
unfolding set_status_text
set_status_text-IsLabelled t text p h =
    if_elim IsLabelled (t.is_utf8 text)
      (λ _.
        toggle-IsLabelled (record p { message = text; message_shown = not (str_eq text "") })
          h.status h.prompt h.caps refl h.icon)
      (λ _. h)

-- Operations that touch neither a label nor the icon.
pub kept-IsLabelled :
    (p : Plug) (cancel_timeout response_idle sensitive area unlock : Bool) (text : String)
    (keys : List KeyEvent) (busy : Bool)
    → IsLabelled p
    → IsLabelled (record p {
      cancel_timeout = cancel_timeout;
      response_idle = response_idle;
      entry_sensitive = sensitive;
      action_area_sensitive = area;
      unlock_sensitive = unlock;
      entry_text = text;
      key_events = keys;
      busy = busy;
    })
kept-IsLabelled p c r s a u text keys b h = record {
  infobar = h.infobar;
  status = h.status;
  prompt = h.prompt;
  caps = h.caps;
  message = h.message;
  icon = h.icon;
}

forward_each-IsLabelled :
    (t : Toolkit) (ks : List KeyEvent) (p : Plug) → IsLabelled p → IsLabelled (forward_each t ks p)
unfolding forward_each
forward_each-IsLabelled t [] p h =
    kept-IsLabelled p p.cancel_timeout p.response_idle p.entry_sensitive p.action_area_sensitive
      p.unlock_sensitive p.entry_text [] p.busy h
forward_each-IsLabelled t (k ∷ ks) p h =
    forward_each-IsLabelled t ks
      (record p { key_events = ks; entry_text = t.type_key k p.entry_text })
      (kept-IsLabelled p p.cancel_timeout p.response_idle p.entry_sensitive p.action_area_sensitive
        p.unlock_sensitive (t.type_key k p.entry_text) ks p.busy h)

pub restart-IsLabelled : (p : Plug) → IsLabelled p → IsLabelled (restart_cancel_timeout p)
unfolding restart_cancel_timeout remove_cancel_timeout
restart-IsLabelled p h =
    kept-IsLabelled p true p.response_idle p.entry_sensitive p.action_area_sensitive
      p.unlock_sensitive p.entry_text p.key_events p.busy h

forward-IsLabelled : (t : Toolkit) (p : Plug) → IsLabelled p → IsLabelled (forward_key_events t p)
unfolding forward_key_events
forward-IsLabelled t p h = forward_each-IsLabelled t (reverse_onto p.key_events []) p h

pub enable_prompt-IsLabelled :
    (t : Toolkit) (message : String) (visible : Bool) (p : Plug)
    → IsLabelled p
    → IsLabelled (gs_lock_plug_enable_prompt t message visible p)
unfolding gs_lock_plug_enable_prompt
enable_prompt-IsLabelled t message visible p h =
    let asking = record p {
      unlock_sensitive = true;
      prompt = message;
      prompt_shown = not (str_eq message "");
    } in
    let told = toggle-IsLabelled asking h.status refl h.caps h.message h.icon in
    let ready = record (toggle_infobar_visibility asking) {
      entry_visibility = visible;
      conceal_icon = visible;
      entry_sensitive = true;
      entry_shown = true;
    } in
    restart-IsLabelled (forward_key_events t ready) (
      forward-IsLabelled t ready (record {
        infobar = told.infobar;
        status = told.status;
        prompt = told.prompt;
        caps = told.caps;
        message = told.message;
        icon = refl;
      }))

pub response-IsLabelled :
    (r : Response) (p : Plug) → IsLabelled p → IsLabelled (gs_lock_plug_response r p)
unfolding gs_lock_plug_response remove_response_idle remove_cancel_timeout
response-IsLabelled ok p h =
    kept-IsLabelled p false false p.entry_sensitive p.action_area_sensitive p.unlock_sensitive
      p.entry_text p.key_events p.busy h
response-IsLabelled cancel p h =
    kept-IsLabelled p false false p.entry_sensitive p.action_area_sensitive p.unlock_sensitive ""
      p.key_events p.busy h
