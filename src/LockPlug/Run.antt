-- ===== src/LockPlug/Run.antt =====
-- src/gs-lock-plug.c: the handlers as events of the main loop, and the loop of gs_lock_plug_run.
use xfce4_screensaver.Base.{Bool, Option, none, some, List, [], ◌∷◌, String, if◌then◌else◌}
use xfce4_screensaver.LockPlug.{
  KeyEvent, Plug, Toolkit, Response, ok, cancel, gs_lock_plug_response, response_cancel_idle,
  dialog_timed_out, capslock_update, entry_icon_press_cb, entry_key_press, gs_lock_plug_show,
}
use xfce4_screensaver.LockPlug.Switch.{switch_user_button_clicked}

-- The widgets let clicks through only while they are sensitive; here they may come at any time.
pub data Event : Type 0 where
  key_press key_release : KeyEvent → Event
  unlock_clicked cancel_clicked switch_clicked delete_event : Event
  cancel_timer response_timer : Event
  keymap_changed icon_press shown : Bool → Event

-- gs_lock_plug_key_release_event.
unfoldable pub gs_lock_plug_key_release_event : KeyEvent → Plug → Plug × Option Response
unfolding gs_lock_plug_response
gs_lock_plug_key_release_event k p =
    if k.is_escape then (gs_lock_plug_response cancel p, some cancel) else (p, none)

-- What a handler leaves, and the response that it emits. A timer that is not set does not fire.
unfoldable pub handle : Toolkit → String → Event → Plug → Plug × Option Response
unfolding entry_key_press gs_lock_plug_key_release_event gs_lock_plug_response
    switch_user_button_clicked dialog_timed_out response_cancel_idle capslock_update
    entry_icon_press_cb gs_lock_plug_show
handle t expired (key_press k) p = (entry_key_press t k p, none)
handle t expired (key_release k) p = gs_lock_plug_key_release_event k p
handle t expired unlock_clicked p = (gs_lock_plug_response ok p, some ok)
handle t expired cancel_clicked p = (gs_lock_plug_response cancel p, some cancel)
handle t expired switch_clicked p = (switch_user_button_clicked p, none)
handle t expired delete_event p = (gs_lock_plug_response cancel p, some cancel)
handle t expired cancel_timer p =
    if p.cancel_timeout then (dialog_timed_out t expired p, none) else (p, none)
handle t expired response_timer p =
    if p.response_idle then (response_cancel_idle p, some cancel) else (p, none)
handle t expired (keymap_changed on) p = (capslock_update on p, none)
handle t expired (icon_press secondary) p = (entry_icon_press_cb secondary p, none)
handle t expired (shown caps) p = (gs_lock_plug_show caps p, none)

-- gs_lock_plug_run over the events of its main loop, each handled by `step`: the first response ends
-- it. After the last event the window is unmapped, which ends it with no response.
unfoldable pub gs_lock_plug_run :
    {E S : Type 0} → (E → S → S × Option Response) → List E → S → S × Option Response
gs_lock_plug_run step [] s = (s, none)
gs_lock_plug_run step (e ∷ es) s =
    let (s', response) = step e s in
    let rest = gs_lock_plug_run step es s' in elim response [ none ↦ rest | some r ↦ (s', some r) ]
