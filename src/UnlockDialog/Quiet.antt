-- ===== src/UnlockDialog/Quiet.antt =====
-- What the handlers of src/xfce4-screensaver-dialog.c leave alone: only a cancellation is printed while
-- PAM asks.
pub mod Asked
use xfce4_screensaver.Base.{
  ℕ, suc, ◌+◌, ◌-◌, Bool, true, false, ◌||◌, Option, none, some, List, [], ◌∷◌, String, ltb,
  if◌then◌else◌, if_elim, option_cases, ◌≡◌, refl, ◌∙◌,
}
use xfce4_screensaver.AuthPam.{
  prompt_echo_on, prompt_echo_off, error_msg, text_info, Question, Answer, response, interrupt,
  Style, verify_user,
}
use xfce4_screensaver.AuthPam.Keeps.{verify_user-Keeps}
use xfce4_screensaver.LockPlug.{
  Plug, Response, ok, cancel, gs_lock_plug_get_text, gs_lock_plug_set_sensitive,
  gs_lock_plug_enable_prompt, gs_lock_plug_disable_prompt, gs_lock_plug_show_message,
}
use xfce4_screensaver.LockPlug.Run.{Event, handle, gs_lock_plug_run}
use xfce4_screensaver.UnlockDialog.{
  Report, cancelled, accepted, auth_failed, quit_requested, Output, window_id, report, Ui, Happens,
  on_plug, reset_idle, Turn, Dialog, printed, gtk_main_quit, quit_response_cancel, response_cb,
  status_text_should_be_hidden, reset_idle_cb, happen, settle, answered, request_response, respond,
  replied, next_turn, auth_message_handler,
}
use xfce4_screensaver.UnlockDialog.Program.{Attempt, client, do_auth_check}

-- Whether the output has a line that lets the user in.
unfoldable pub has_accepted : List Output → Bool
has_accepted [] = false
has_accepted (window_id id ∷ os) = has_accepted os
has_accepted (report accepted ∷ os) = true
has_accepted (report cancelled ∷ os) = has_accepted os
has_accepted (report auth_failed ∷ os) = has_accepted os
has_accepted (report quit_requested ∷ os) = has_accepted os

-- The lines on failed checks.
unfoldable pub failures : List Output → ℕ
failures [] = 0
failures (window_id id ∷ os) = failures os
failures (report auth_failed ∷ os) = suc (failures os)
failures (report accepted ∷ os) = failures os
failures (report cancelled ∷ os) = failures os
failures (report quit_requested ∷ os) = failures os

-- The dialog is left as it was but for its window, its inputs, cancellations and whether it quits.
pub record IsQuiet (d e : Dialog) : Type 0 where
  pub counter : e.loop_counter ≡ d.loop_counter
  pub ok_idle : e.ok_idle ≡ d.ok_idle
  pub request : e.request_quit_idle ≡ d.request_quit_idle
  pub accepted : has_accepted e.output ≡ has_accepted d.output
  pub failed : failures e.output ≡ failures d.output

pub IsQuiet-refl : (d : Dialog) → IsQuiet d d
IsQuiet-refl d = record {
  counter = refl;
  ok_idle = refl;
  request = refl;
  accepted = refl;
  failed = refl;
}

pub IsQuiet-trans : (d e f : Dialog) → IsQuiet d e → IsQuiet e f → IsQuiet d f
IsQuiet-trans d e f p q = record {
  counter = q.counter ∙ p.counter;
  ok_idle = q.ok_idle ∙ p.ok_idle;
  request = q.request ∙ p.request;
  accepted = q.accepted ∙ p.accepted;
  failed = q.failed ∙ p.failed;
}

-- The fields that do not count may be set.
pub IsQuiet-set :
    (d e : Dialog) (plug : Plug) (quit : Bool) (resets : ℕ) (turns : List Turn)
    → IsQuiet d e
    → IsQuiet d (record e { plug = plug; has_quit = quit; reset_timeouts = resets; turns = turns })
IsQuiet-set d e plug quit resets turns h = record {
  counter = h.counter;
  ok_idle = h.ok_idle;
  request = h.request;
  accepted = h.accepted;
  failed = h.failed;
}

response_cb-IsQuiet : (r : Response) (d : Dialog) → IsQuiet d (response_cb r d)
unfolding response_cb quit_response_cancel printed gtk_main_quit has_accepted failures
response_cb-IsQuiet ok d = IsQuiet-refl d
response_cb-IsQuiet cancel d = record {
  counter = refl;
  ok_idle = refl;
  request = refl;
  accepted = refl;
  failed = refl;
}

abbrev pub Leaves {ℓ} : {A : Type ℓ} → Dialog → Dialog × A → Type 0
Leaves d r = IsQuiet d r.0

happen-IsQuiet : (ui : Ui) (e : Happens) (d : Dialog) → IsQuiet d (happen ui e d).0
unfolding happen reset_idle_cb
happen-IsQuiet ui (on_plug e) d =
    let (plug, emitted) = handle ui.toolkit ui.time_expired e d.plug in
    let d' = record d { plug = plug } in
    let same = IsQuiet-set d d plug d.has_quit d.reset_timeouts d.turns (IsQuiet-refl d) in
    option_cases (Leaves d) emitted (λ _. same)
      (λ r _. IsQuiet-trans d d' (response_cb r d') same (response_cb-IsQuiet r d'))
happen-IsQuiet ui reset_idle d =
    if_elim (Leaves d) (ltb 0 d.reset_timeouts)
      (λ _.
        IsQuiet-set d d (reset_idle_cb ui d).plug d.has_quit (d.reset_timeouts - 1) d.turns
          (IsQuiet-refl d))
      (λ _. IsQuiet-refl d)

pub settle-IsQuiet : (ui : Ui) (es : List Happens) (d : Dialog) → IsQuiet d (settle ui es d)
unfolding settle
settle-IsQuiet ui [] d = IsQuiet-refl d
settle-IsQuiet ui (e ∷ es) d =
    let d' = (happen ui e d).0 in
    IsQuiet-trans d d' (settle ui es d') (happen-IsQuiet ui e d) (settle-IsQuiet ui es d')

pub run-IsQuiet :
    (ui : Ui) (es : List Happens) (d : Dialog) → IsQuiet d (gs_lock_plug_run (happen ui) es d).0
unfolding gs_lock_plug_run
run-IsQuiet ui [] d = IsQuiet-refl d
run-IsQuiet ui (e ∷ es) d =
    let (d', emitted) = happen ui e d in
    let rest = gs_lock_plug_run (happen ui) es d' in
    let first = happen-IsQuiet ui e d in
    option_cases (Leaves d) emitted (λ _. IsQuiet-trans d d' rest.0 first (run-IsQuiet ui es d'))
      (λ r _. first)
