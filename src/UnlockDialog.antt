-- ===== src/UnlockDialog.antt =====
-- src/xfce4-screensaver-dialog.c: the program that asks for the password. It prints what the
-- screensaver is to do; its window is that of gs-lock-plug.c, and PAM asks through its handler.
pub mod Program
pub mod Informed
pub mod Lines
pub mod Unlocks
pub mod Checks
pub mod Quiet
use xfce4_screensaver.Base.{
  ℕ, ◌+◌, ◌-◌, ◌%◌, ◌^◌, Bool, true, false, ◌||◌, Option, none, some, List, [], ◌∷◌, String, str_eq,
  ltb, if◌then◌else◌,
}
use xfce4_screensaver.Subprocs.{Mask}
use xfce4_screensaver.AuthPam.{
  prompt_echo_on, prompt_echo_off, error_msg, text_info, Question, Answer, response, interrupt,
  Client, PamCalls, AuthError, verify_user,
}
use xfce4_screensaver.LockPlug.{
  Plug, Toolkit, Response, ok, cancel, gs_lock_plug_set_sensitive, gs_lock_plug_get_text,
  gs_lock_plug_enable_prompt, gs_lock_plug_disable_prompt, gs_lock_plug_show_message,
}
use xfce4_screensaver.LockPlug.Run.{Event, handle, gs_lock_plug_run}

-- What the program prints, a line each; the other one is the window's id.
pub data Report : Type 0 where
  cancelled accepted auth_failed quit_requested : Report

pub data Output : Type 0 where
  window_id : String → Output
  report : Report → Output

-- The toolkit and the translated texts.
pub record Ui : Type 0 where
  pub toolkit : Toolkit
  pub pam_prompt : String
  pub checking : String
  pub time_expired : String
  pub authentication_failed : String
  pub error_text : AuthError → String

-- An event of the main loop: one of the window, or the timeout that resets it.
pub data Happens : Type 0 where
  on_plug : Event → Happens
  reset_idle : Happens

-- The events of one message of PAM: while the dialog asks, and those from then to the next message.
pub record Turn : Type 0 where
  pub asking : List Happens
  pub pending : List Happens

-- The program: its window, its output with the last line first, whether gtk_main_quit was called, the
-- counter of auth_check_idle, the sources it has set, what is to come, and the state that PAM and the
-- signal mask keep.
pub record Dialog : Type 0 where
  pub plug : Plug
  pub output : List Output
  pub has_quit : Bool
  pub loop_counter : ℕ
  pub reset_timeouts : ℕ
  pub ok_idle : Bool
  pub request_quit_idle : Bool
  pub quit_timeout : Bool
  pub turns : List Turn
  pub asked : Bool
  pub mask : Mask

unfoldable pub printed : Report → Dialog → Dialog
printed line d = record d { output = report line ∷ d.output }

unfoldable pub gtk_main_quit : Dialog → Dialog
gtk_main_quit d = record d { has_quit = true }

unfoldable pub quit_response_ok : Dialog → Dialog
unfolding printed gtk_main_quit
quit_response_ok d = gtk_main_quit (printed accepted d)

unfoldable pub quit_response_cancel : Dialog → Dialog
unfolding printed gtk_main_quit
quit_response_cancel d = gtk_main_quit (printed cancelled d)

-- response_cb.
unfoldable pub response_cb : Response → Dialog → Dialog
unfolding quit_response_cancel
response_cb ok d = d
response_cb cancel d = quit_response_cancel d

unfoldable pub reset_idle_cb : Ui → Dialog → Dialog
unfolding gs_lock_plug_set_sensitive gs_lock_plug_show_message
reset_idle_cb ui d = record d {
  plug = gs_lock_plug_show_message ui.toolkit none (gs_lock_plug_set_sensitive true d.plug);
}

-- An event, and the response that it emits. A timeout that is not set does not come.
unfoldable pub happen : Ui → Happens → Dialog → Dialog × Option Response
unfolding handle response_cb reset_idle_cb
happen ui (on_plug e) d =
    let (plug, emitted) = handle ui.toolkit ui.time_expired e d.plug in
    let d' = record d { plug = plug } in
    elim emitted [ none ↦ (d', none) | some r ↦ (response_cb r d', some r) ]
happen ui reset_idle d =
    if ltb 0 d.reset_timeouts
    then (reset_idle_cb ui (record d { reset_timeouts = d.reset_timeouts - 1 }), none)
    else (d, none)

-- Events that the main loop handles while nothing is asked.
unfoldable pub settle : Ui → List Happens → Dialog → Dialog
unfolding happen
settle ui [] d = d
settle ui (e ∷ es) d = settle ui es (happen ui e d).0

-- The end of request_response: the text of the entry after an OK.
unfoldable pub answered : Ui → Option Response → Dialog → Option String × Dialog
unfolding gs_lock_plug_get_text
answered ui (some ok) d =
    let (text, plug) = gs_lock_plug_get_text ui.toolkit d.plug in (text, record d { plug = plug })
answered ui (some cancel) d = (none, d)
answered ui none d = (none, d)

unfoldable pub request_response :
    Ui → String → Bool → List Happens → Dialog → Option String × Dialog
unfolding gs_lock_plug_set_sensitive gs_lock_plug_enable_prompt gs_lock_plug_run happen answered
    gs_lock_plug_disable_prompt
request_response ui prompt visible events d =
    let plug = gs_lock_plug_set_sensitive true d.plug in
    let asking = record d { plug = gs_lock_plug_enable_prompt ui.toolkit prompt visible plug } in
    let (left, r) = gs_lock_plug_run (happen ui) events asking in
    let (text, d') = answered ui r left in
    (text, record d' { plug = gs_lock_plug_disable_prompt d'.plug })

unfoldable pub status_text_should_be_hidden : Ui → String → Bool
status_text_should_be_hidden ui msg = str_eq msg ui.pam_prompt || str_eq msg "Password:"

-- The events that are next.
unfoldable pub next_turn : List Turn → Turn × List Turn
next_turn [] = (record { asking = []; pending = [] }, [])
next_turn (turn ∷ turns) = (turn, turns)

-- The switch of auth_message_handler: the response, if there is one.
unfoldable pub respond : Ui → Question → List Happens → Dialog → Option String × Dialog
unfolding status_text_should_be_hidden request_response gs_lock_plug_show_message
respond ui q events d =
    let message = if status_text_should_be_hidden ui q.text then "" else q.text in
    let shown = record d { plug = gs_lock_plug_show_message ui.toolkit (some message) d.plug } in
    elim q.style [
      | prompt_echo_on ↦ request_response ui message true events d
      | prompt_echo_off ↦ request_response ui message false events d
      | error_msg ↦ (none, shown)
      | text_info ↦ (none, shown)
    ]

-- What is done with a response, or without one.
unfoldable pub replied : Ui → Option String → Dialog → Answer × Dialog
unfolding gs_lock_plug_show_message gs_lock_plug_set_sensitive
replied ui none d = (interrupt, d)
replied ui (some text) d =
    let told = gs_lock_plug_show_message ui.toolkit (some ui.checking) d.plug in
    (response (some text), record d { plug = gs_lock_plug_set_sensitive false told })

-- auth_message_handler, called from the main loop: after the loop is left it does not run.
unfoldable pub auth_message_handler : Ui → Question → Dialog → Answer × Dialog
unfolding next_turn respond replied settle
auth_message_handler ui q d =
    let (turn, turns) = next_turn d.turns in
    let ready = record d { turns = turns; plug = record d.plug { busy = false } } in
    let (text, d1) = respond ui q turn.asking ready in
    let (answer, d2) = replied ui text d1 in
    let d3 = settle ui turn.pending d2 in
    if d.has_quit
    then (interrupt, d)
    else (answer, record d3 { plug = record d3.plug { busy = true } })
