-- ===== src/LockPlug/Labels/Handled.antt =====
-- What the dialog shows, over the events of its main loop (src/gs-lock-plug.c).
use xfce4_screensaver.Base.{
  Bool, true, false, ◌&&◌, Option, List, [], ◌∷◌, String, str_eq, if_elim, option_cases, refl,
}
use xfce4_screensaver.LockPlug.{
  KeyEvent, Plug, Toolkit, Response, ok, cancel, gs_lock_plug_set_sensitive, remove_cancel_timeout,
  remove_response_idle, gs_lock_plug_response, response_cancel_idle, dialog_timed_out,
  capslock_update, restart_cancel_timeout, gs_lock_plug_show, queue_key_event, entry_icon_press_cb,
  entry_key_press,
}
use xfce4_screensaver.LockPlug.Switch.{switch_user_button_clicked}
use xfce4_screensaver.LockPlug.Run.{
  Event, key_press, key_release, unlock_clicked, cancel_clicked, switch_clicked, delete_event,
  cancel_timer, response_timer, keymap_changed, icon_press, shown, handle,
  gs_lock_plug_key_release_event, gs_lock_plug_run,
}
use xfce4_screensaver.LockPlug.Labels.{
  IsLabelled, toggle-IsLabelled, kept-IsLabelled, set_status_text-IsLabelled, restart-IsLabelled,
  response-IsLabelled,
}

capslock_update-IsLabelled :
    (on : Bool) (p : Plug) → IsLabelled p → IsLabelled (capslock_update on p)
unfolding capslock_update
capslock_update-IsLabelled on p h =
    toggle-IsLabelled (record p { caps_lock_on = on; capslock_shown = on }) h.status h.prompt refl
      h.message h.icon

key_press-IsLabelled :
    (t : Toolkit) (k : KeyEvent) (p : Plug) → IsLabelled p → IsLabelled (entry_key_press t k p)
unfolding entry_key_press queue_key_event restart_cancel_timeout remove_cancel_timeout
key_press-IsLabelled t k p h =
    let kept = λ (text : String) (keys : List KeyEvent).
      kept-IsLabelled p true p.response_idle p.entry_sensitive p.action_area_sensitive
        p.unlock_sensitive text keys p.busy h in
    if_elim IsLabelled (p.entry_shown && p.entry_sensitive)
      (λ _. kept (t.type_key k p.entry_text) p.key_events)
      λ _.
        if_elim IsLabelled (str_eq k.text "") (λ _. kept p.entry_text p.key_events)
          (λ _. kept p.entry_text (k ∷ p.key_events))

icon_press-IsLabelled :
    (secondary : Bool) (p : Plug) → IsLabelled p → IsLabelled (entry_icon_press_cb secondary p)
unfolding entry_icon_press_cb
icon_press-IsLabelled true p h = record {
  infobar = h.infobar;
  status = h.status;
  prompt = h.prompt;
  caps = h.caps;
  message = h.message;
  icon = refl;
}
icon_press-IsLabelled false p h = h

timed_out-IsLabelled :
    (t : Toolkit) (expired : String) (p : Plug)
    → IsLabelled p
    → IsLabelled (dialog_timed_out t expired p)
unfolding dialog_timed_out gs_lock_plug_set_sensitive remove_response_idle
timed_out-IsLabelled t expired p h =
    let started =
      kept-IsLabelled p false p.response_idle false false p.unlock_sensitive p.entry_text
        p.key_events p.busy h in
    let told = set_status_text-IsLabelled t expired _ started in
    record {
      infobar = told.infobar;
      status = told.status;
      prompt = told.prompt;
      caps = told.caps;
      message = told.message;
      icon = told.icon;
    }

switch-IsLabelled : (p : Plug) → IsLabelled p → IsLabelled (switch_user_button_clicked p)
unfolding switch_user_button_clicked gs_lock_plug_set_sensitive remove_response_idle
switch-IsLabelled p h =
    kept-IsLabelled p p.cancel_timeout true false false p.unlock_sensitive p.entry_text p.key_events
      true h

idle-IsLabelled : (p : Plug) → IsLabelled p → IsLabelled (response_cancel_idle p)
unfolding response_cancel_idle gs_lock_plug_response remove_response_idle remove_cancel_timeout
idle-IsLabelled p h =
    kept-IsLabelled p false false p.entry_sensitive p.action_area_sensitive p.unlock_sensitive ""
      p.key_events p.busy h

abbrev Both : Plug × Option Response → Type 0
Both r = IsLabelled r.0

pub handle-IsLabelled :
    (t : Toolkit) (expired : String) (e : Event) (p : Plug)
    → IsLabelled p
    → IsLabelled (handle t expired e p).0
unfolding handle gs_lock_plug_key_release_event gs_lock_plug_show
handle-IsLabelled t expired (key_press k) p h = key_press-IsLabelled t k p h
handle-IsLabelled t expired (key_release k) p h =
    if_elim Both k.is_escape (λ _. response-IsLabelled cancel p h) (λ _. h)
handle-IsLabelled t expired unlock_clicked p h = response-IsLabelled ok p h
handle-IsLabelled t expired cancel_clicked p h = response-IsLabelled cancel p h
handle-IsLabelled t expired switch_clicked p h = switch-IsLabelled p h
handle-IsLabelled t expired delete_event p h = response-IsLabelled cancel p h
handle-IsLabelled t expired cancel_timer p h =
    if_elim Both p.cancel_timeout (λ _. timed_out-IsLabelled t expired p h) (λ _. h)
handle-IsLabelled t expired response_timer p h =
    if_elim Both p.response_idle (λ _. idle-IsLabelled p h) (λ _. h)
handle-IsLabelled t expired (keymap_changed on) p h = capslock_update-IsLabelled on p h
handle-IsLabelled t expired (icon_press secondary) p h = icon_press-IsLabelled secondary p h
handle-IsLabelled t expired (shown caps) p h =
    restart-IsLabelled (capslock_update caps p) (capslock_update-IsLabelled caps p h)

-- Whatever happens while the dialog asks, its info bar is shown just while one of its labels is, each
-- label just while its message, prompt or state is there to show, and the icon of the entry says what
-- a press of it does, if this was so before.
pub run-IsLabelled :
    (t : Toolkit) (expired : String) (es : List Event) (p : Plug)
    → IsLabelled p
    → IsLabelled (gs_lock_plug_run (handle t expired) es p).0
unfolding gs_lock_plug_run
run-IsLabelled t expired [] p h = h
run-IsLabelled t expired (e ∷ es) p h =
    let r = handle t expired e p in
    let h' = handle-IsLabelled t expired e p h in
    option_cases Both r.1 (λ _. run-IsLabelled t expired es r.0 h') (λ response _. h')
