-- ===== src/UnlockDialog/Quiet/Asked.antt =====
-- What the handler of PAM's messages leaves alone (src/xfce4-screensaver-dialog.c).
use xfce4_screensaver.Base.{
  Bool, true, false, Option, none, some, List, String, if◌then◌else◌, if_elim,
}
use xfce4_screensaver.AuthPam.{
  prompt_echo_on, prompt_echo_off, error_msg, text_info, Question, Style, verify_user,
}
use xfce4_screensaver.AuthPam.Keeps.{verify_user-Keeps}
use xfce4_screensaver.LockPlug.{
  Response, ok, cancel, gs_lock_plug_get_text, gs_lock_plug_set_sensitive,
  gs_lock_plug_enable_prompt, gs_lock_plug_disable_prompt, gs_lock_plug_show_message,
}
use xfce4_screensaver.LockPlug.Run.{gs_lock_plug_run}
use xfce4_screensaver.UnlockDialog.{
  Ui, Happens, Dialog, status_text_should_be_hidden, happen, settle, answered, request_response,
  respond, replied, next_turn, auth_message_handler,
}
use xfce4_screensaver.UnlockDialog.Program.{Attempt, client}
use xfce4_screensaver.UnlockDialog.Quiet.{
  IsQuiet, IsQuiet-refl, IsQuiet-trans, IsQuiet-set, settle-IsQuiet, run-IsQuiet,
}

-- The same of a result that comes with the dialog.
abbrev pub With {ℓ} : {A : Type ℓ} → Dialog → A × Dialog → Type 0
With d r = IsQuiet d r.1

answered-IsQuiet : (ui : Ui) (r : Option Response) (d : Dialog) → IsQuiet d (answered ui r d).1
unfolding answered
answered-IsQuiet ui none d = IsQuiet-refl d
answered-IsQuiet ui (some cancel) d = IsQuiet-refl d
answered-IsQuiet ui (some ok) d =
    IsQuiet-set d d (gs_lock_plug_get_text ui.toolkit d.plug).1 d.has_quit d.reset_timeouts d.turns
      (IsQuiet-refl d)

request_response-IsQuiet :
    (ui : Ui) (prompt : String) (visible : Bool) (es : List Happens) (d : Dialog)
    → IsQuiet d (request_response ui prompt visible es d).1
unfolding request_response
request_response-IsQuiet ui prompt visible es d =
    let plug = gs_lock_plug_set_sensitive true d.plug in
    let asking = record d { plug = gs_lock_plug_enable_prompt ui.toolkit prompt visible plug } in
    let (left, r) = gs_lock_plug_run (happen ui) es asking in
    let d' = (answered ui r left).1 in
    let asked = IsQuiet-set d d asking.plug d.has_quit d.reset_timeouts d.turns (IsQuiet-refl d) in
    let ran = IsQuiet-trans d asking left asked (run-IsQuiet ui es asking) in
    let got = IsQuiet-trans d left d' ran (answered-IsQuiet ui r left) in
    IsQuiet-set d d' (gs_lock_plug_disable_prompt d'.plug) d'.has_quit d'.reset_timeouts d'.turns
      got

style_elim {ℓ κ} :
    {A : Type ℓ} (R : A → Type κ) (style : Style) {a b c e : A}
    → R a
    → R b
    → R c
    → R e
    → R (elim style [ prompt_echo_on ↦ a | prompt_echo_off ↦ b | error_msg ↦ c | text_info ↦ e ])
style_elim R prompt_echo_on ha hb hc he = ha
style_elim R prompt_echo_off ha hb hc he = hb
style_elim R error_msg ha hb hc he = hc
style_elim R text_info ha hb hc he = he

respond-IsQuiet :
    (ui : Ui) (q : Question) (es : List Happens) (d : Dialog) → IsQuiet d (respond ui q es d).1
unfolding respond
respond-IsQuiet ui q es d =
    let message : String = if status_text_should_be_hidden ui q.text then "" else q.text in
    let plug = gs_lock_plug_show_message ui.toolkit (some message) d.plug in
    let shown = IsQuiet-set d d plug d.has_quit d.reset_timeouts d.turns (IsQuiet-refl d) in
    style_elim (With d) q.style (request_response-IsQuiet ui message true es d)
      (request_response-IsQuiet ui message false es d) shown shown

replied-IsQuiet : (ui : Ui) (text : Option String) (d : Dialog) → IsQuiet d (replied ui text d).1
unfolding replied
replied-IsQuiet ui none d = IsQuiet-refl d
replied-IsQuiet ui (some text) d =
    let told = gs_lock_plug_show_message ui.toolkit (some ui.checking) d.plug in
    IsQuiet-set d d (gs_lock_plug_set_sensitive false told) d.has_quit d.reset_timeouts d.turns
      (IsQuiet-refl d)

pub handler-IsQuiet :
    (ui : Ui) (q : Question) (d : Dialog) → IsQuiet d (auth_message_handler ui q d).1
unfolding auth_message_handler
handler-IsQuiet ui q d =
    let (turn, turns) = next_turn d.turns in
    let plug = record d.plug { busy = false } in
    let ready = record d { turns = turns; plug = plug } in
    let d1 = (respond ui q turn.asking ready).1 in
    let d2 = (replied ui (respond ui q turn.asking ready).0 d1).1 in
    let d3 = settle ui turn.pending d2 in
    let s0 = IsQuiet-set d d plug d.has_quit d.reset_timeouts turns (IsQuiet-refl d) in
    let s1 = IsQuiet-trans d ready d1 s0 (respond-IsQuiet ui q turn.asking ready) in
    let s2 = IsQuiet-trans d d1 d2 s1 (replied-IsQuiet ui (respond ui q turn.asking ready).0 d1) in
    let s3 = IsQuiet-trans d d2 d3 s2 (settle-IsQuiet ui turn.pending d2) in
    if_elim (With d) d.has_quit (λ _. IsQuiet-refl d)
      (λ _.
        IsQuiet-set d d3 (record d3.plug { busy = true }) d3.has_quit d3.reset_timeouts d3.turns s3)

-- All that PAM asks leaves the dialog quiet.
pub verify-IsQuiet :
    (ui : Ui) (a : Attempt) (d : Dialog)
    → IsQuiet d
        (verify_user ui.pam_prompt
          (client ui a)
          a.calls
          d.asked
          d.mask
          (record d { turns = a.turns })).1
unfolding client
verify-IsQuiet ui a d =
    verify_user-Keeps ui.pam_prompt (client ui a) (λ (e : Dialog). IsQuiet d e)
      (λ q e h. IsQuiet-trans d e (auth_message_handler ui q e).1 h (handler-IsQuiet ui q e))
      (λ e h. IsQuiet-trans d e (settle ui a.working e) h (settle-IsQuiet ui a.working e)) a.calls
      d.asked d.mask (record d { turns = a.turns })
      (IsQuiet-set d d d.plug d.has_quit d.reset_timeouts a.turns (IsQuiet-refl d))
