-- ===== src/LockPlug/Timers.antt =====
-- A prompt ends by itself (src/gs-lock-plug.c).
use xfce4_screensaver.Base.{
  Bool, true, false, ◌&&◌, ◌||◌, Option, none, some, List, [], ◌∷◌, ◌++◌, String, str_eq, if_elim,
  option_cases, ◌≡◌, refl, arith, Bool-cases, inl, inr,
}
use xfce4_screensaver.LockPlug.{
  KeyEvent, Plug, Toolkit, Response, cancel, gs_lock_plug_enable_prompt, entry_key_press,
  restart_cancel_timeout, remove_cancel_timeout, queue_key_event, dialog_timed_out, capslock_update,
  toggle_infobar_visibility, entry_icon_press_cb, gs_lock_plug_show, remove_response_idle,
}
use xfce4_screensaver.LockPlug.Switch.{switch_user_button_clicked}
use xfce4_screensaver.LockPlug.Run.{
  Event, key_press, key_release, unlock_clicked, cancel_clicked, switch_clicked, delete_event,
  cancel_timer, response_timer, keymap_changed, icon_press, shown, handle,
  gs_lock_plug_key_release_event, gs_lock_plug_run,
}

-- What is left of a handler: a response, or a timer that is set.
abbrev Waits : Plug → Type 0
Waits p = (p.cancel_timeout || p.response_idle) ≡ true

abbrev Ends : Plug × Option Response → Type 0
Ends r = elim r.1 [ none ↦ Waits r.0 | some _ ↦ Unit ]

key_press-Waits : (t : Toolkit) (k : KeyEvent) (p : Plug) → Waits (entry_key_press t k p)
unfolding entry_key_press restart_cancel_timeout remove_cancel_timeout queue_key_event
key_press-Waits t k p =
    if_elim Waits (p.entry_shown && p.entry_sensitive) (λ _. refl)
      (λ _. if_elim Waits (str_eq k.text "") (λ _. refl) (λ _. refl))

or_true : (b : Bool) → (b || true) ≡ true
or_true true = refl
or_true false = refl

handle-Ends :
    (t : Toolkit) (expired : String) (e : Event) (p : Plug) → Waits p → Ends (handle t expired e p)
unfolding handle gs_lock_plug_key_release_event gs_lock_plug_show restart_cancel_timeout
    remove_cancel_timeout dialog_timed_out capslock_update toggle_infobar_visibility
    entry_icon_press_cb switch_user_button_clicked
handle-Ends t expired (key_press k) p h = key_press-Waits t k p
handle-Ends t expired (key_release k) p h = if_elim Ends k.is_escape (λ _. tt) (λ _. h)
handle-Ends t expired unlock_clicked p h = tt
handle-Ends t expired cancel_clicked p h = tt
handle-Ends t expired switch_clicked p h = or_true p.cancel_timeout
handle-Ends t expired delete_event p h = tt
handle-Ends t expired cancel_timer p h =
    if_elim Ends p.cancel_timeout (λ _. or_true (dialog_timed_out t expired p).cancel_timeout)
      (λ _. h)
handle-Ends t expired response_timer p h = if_elim Ends p.response_idle (λ _. tt) (λ _. h)
handle-Ends t expired (keymap_changed on) p h = h
handle-Ends t expired (icon_press true) p h = h
handle-Ends t expired (icon_press false) p h = h
handle-Ends t expired (shown caps) p h = refl

-- The two timers, one after the other, end a prompt.
timers-answer :
    (t : Toolkit) (expired : String) (p : Plug)
    → Waits p
    → (gs_lock_plug_run (handle t expired) (cancel_timer ∷ response_timer ∷ []) p).1 ≡ some cancel
unfolding gs_lock_plug_run handle dialog_timed_out remove_response_idle
timers-answer t expired p h = elim (Bool-cases p.cancel_timeout) [
  | inl on ↦ ground arith
  | inr off ↦ ground arith
]

abbrev AnsweredBy : Plug × Option Response → Type 0
AnsweredBy r = (response : Response) × (r.1 ≡ some response)

run-answered :
    (t : Toolkit) (expired : String) (es : List Event) (p : Plug)
    → Waits p
    → AnsweredBy
        (gs_lock_plug_run (handle t expired) (es ++ (cancel_timer ∷ response_timer ∷ [])) p)
unfolding gs_lock_plug_run
run-answered t expired [] p h = (cancel, timers-answer t expired p h)
run-answered t expired (e ∷ es) p h =
    let r = handle t expired e p in
    let ends = handle-Ends t expired e p h in
    option_cases AnsweredBy r.1
      (λ silent. run-answered t expired es r.0 (ground (arith, ends, silent)))
      (λ response _. (response, refl))

enable_prompt-Waits :
    (t : Toolkit) (message : String) (visible : Bool) (p : Plug)
    → Waits (gs_lock_plug_enable_prompt t message visible p)
unfolding gs_lock_plug_enable_prompt restart_cancel_timeout remove_cancel_timeout
enable_prompt-Waits t message visible p = refl

-- A prompt does not wait for ever: whatever happens once it is enabled, the dialog's timeout and the
-- one that follows it leave a response, if the user has not given one before.
pub enable_prompt-answered :
    (t : Toolkit) (expired message : String) (visible : Bool) (es : List Event) (p : Plug)
    → (r : Response) × ((gs_lock_plug_run
          (handle t expired)
          (es ++ (cancel_timer ∷ response_timer ∷ []))
          (gs_lock_plug_enable_prompt t message visible p)).1
        ≡ some r)
enable_prompt-answered t expired message visible es p =
    run-answered t expired es (gs_lock_plug_enable_prompt t message visible p)
      (enable_prompt-Waits t message visible p)
