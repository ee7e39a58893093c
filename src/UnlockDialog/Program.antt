-- ===== src/UnlockDialog/Program.antt =====
-- src/xfce4-screensaver-dialog.c: the checks of the password and the program.
use xfce4_screensaver.Base.{
  ℕ, zero, suc, ◌+◌, ◌%◌, ◌^◌, Bool, true, false, not, Option, none, some, List, [], ◌∷◌, String,
  ltb, if◌then◌else◌,
}
use xfce4_screensaver.Subprocs.{Mask}
use xfce4_screensaver.AuthPam.{Client, PamCalls, AuthError, verify_user}
use xfce4_screensaver.LockPlug.{gs_lock_plug_show_message, gs_lock_plug_show}
use xfce4_screensaver.LockPlug.Switch.{Options, gs_lock_plug_init, gs_lock_plug_new}
use xfce4_screensaver.Setuid.{Ids, Kernel, hack_uid}
use xfce4_screensaver.UnlockDialog.{
  Ui, Happens, Turn, Dialog, Output, window_id, report, accepted, auth_failed, quit_requested,
  printed, gtk_main_quit, quit_response_ok, settle, auth_message_handler,
}

-- A check of the password: the events before it, those of the messages and those while PAM works
-- after them, and what PAM does.
pub record Attempt : Type 0 where
  pub before : List Happens
  pub turns : List Turn
  pub working : List Happens
  pub calls : PamCalls

unfoldable pub client : Ui → Attempt → Client Dialog
unfolding auth_message_handler settle
client ui a = record {
  ask = auth_message_handler ui;
  work = settle ui a.working;
  has_quit = λ d. d.has_quit;
}

-- What do_auth_check does about a failure.
unfoldable pub check_failed : Ui → Option AuthError → Dialog → Dialog
unfolding gs_lock_plug_show_message printed
check_failed ui error d =
    let text : String = elim error [ none ↦ ui.authentication_failed | some e ↦ ui.error_text e ] in
    printed auth_failed
      (record d { plug = gs_lock_plug_show_message ui.toolkit (some text) d.plug })

-- do_auth_check: its result, or `none` where the program has ended by a signal.
unfoldable pub do_auth_check : Ui → Attempt → Dialog → Option Bool × Dialog
unfolding client verify_user check_failed
do_auth_check ui a d =
    let start = record d { turns = a.turns } in
    let (run, s) = verify_user ui.pam_prompt (client ui a) a.calls d.asked d.mask start in
    let left = record s { asked = run.asked; mask = run.mask } in
    elim run.result [
      | none ↦ (none, left)
      | some res ↦ (some res, if res then left else check_failed ui run.error left)
    ]

abbrev pub max_failures : ℕ
max_failures = 5

-- auth_check_idle after a check.
unfoldable pub count_check : Bool → Dialog → Bool × Dialog
count_check true d = (false, record d { ok_idle = true })
count_check false d =
    let counted = record d { loop_counter = (d.loop_counter + 1) % 2 ^ 32 } in
    if ltb counted.loop_counter max_failures
    then (true, record counted { reset_timeouts = counted.reset_timeouts + 1 })
    else (false, record counted { request_quit_idle = true; quit_timeout = true })

-- Whether it is called again, or `none` where the program has ended by a signal.
unfoldable pub auth_check_idle : Ui → Attempt → Dialog → Option Bool × Dialog
unfolding do_auth_check count_check
auth_check_idle ui a d =
    let (res, left) = do_auth_check ui a d in
    elim res [
      | none ↦ (none, left)
      | some passed ↦ let (again, d') = count_check passed left in (some again, d')
    ]

-- How the calls of auth_check_idle end.
pub data Stop : Type 0 where
  idle_removed loop_left by_signal out_of_fuel : Stop

-- The main loop with the idle source: a call for each attempt, until the source is removed or the loop
-- is left. The fuel bounds the calls.
unfoldable pub auth_loop : ℕ → Ui → (ℕ → Attempt) → Dialog → Stop × Dialog
unfolding settle auth_check_idle
auth_loop zero ui attempts d = (out_of_fuel, d)
auth_loop (suc fuel) ui attempts d =
    let a = attempts d.loop_counter in
    let ready = settle ui a.before d in
    let (again, d') = auth_check_idle ui a ready in
    let rest = auth_loop fuel ui attempts d' in
    if ready.has_quit
    then (loop_left, ready)
    else elim again [ none ↦ (by_signal, d') | some b ↦ if b then rest else (idle_removed, d') ]

-- The idle sources that are left, after the events `last`; then those of `closing` until the loop ends.
unfoldable pub close_dialog : Ui → List Happens → List Happens → Dialog → Dialog
unfolding settle quit_response_ok printed gtk_main_quit
close_dialog ui last closing d =
    let d1 = settle ui last d in
    if d1.has_quit
    then d1
    else if d1.ok_idle
    then quit_response_ok d1
    else if d1.request_quit_idle
    then gtk_main_quit (settle ui closing (printed quit_requested d1))
    else d1

-- What the program finds: its identities, the answers of the libraries at the start, its options, its
-- window's id and the state of Caps Lock, and the events to come.
pub record Start : Type 0 where
  pub ids : Ids
  pub kernel : Kernel
  pub gtk_ready : Bool
  pub show_version : Bool
  pub display_supported : Bool
  pub xfconf_ready : Bool
  pub auth_ready : Bool
  pub under_mdm : Bool
  pub options : Options
  pub id : String
  pub caps_lock : Bool
  pub mask : Mask
  pub attempts : ℕ → Attempt
  pub last : List Happens
  pub closing : List Happens

unfoldable pub privileged_initialization : Start → Bool
unfolding hack_uid
privileged_initialization s = elim (hack_uid s.kernel s.ids).0 [ none ↦ true | some reason ↦ false ]

-- lock_initialization, in a build with locking that is not for macOS.
unfoldable pub lock_initialization : Start → Bool
lock_initialization s = if not s.auth_ready then false else not s.under_mdm

-- popup_dialog_idle, with show_cb.
unfoldable pub popup_dialog_idle : Ui → Start → Dialog
unfolding gs_lock_plug_new gs_lock_plug_init gs_lock_plug_show
popup_dialog_idle ui s = record {
  plug = gs_lock_plug_show s.caps_lock (gs_lock_plug_new ui.toolkit s.options gs_lock_plug_init);
  output = window_id s.id ∷ [];
  has_quit = false;
  loop_counter = 0;
  reset_timeouts = 0;
  ok_idle = false;
  request_quit_idle = false;
  quit_timeout = false;
  turns = [];
  asked = false;
  mask = s.mask;
}

-- How main ends, with the output. `fuel` bounds the checks.
pub data Exit : Type 0 where
  failure success terminated : Exit
  unfinished : Exit

unfoldable pub stopped : Ui → Start → Stop × Dialog → Exit × List Output
unfolding close_dialog
stopped ui s (idle_removed, d) = (success, (close_dialog ui s.last s.closing d).output)
stopped ui s (loop_left, d) = (success, d.output)
stopped ui s (by_signal, d) = (terminated, d.output)
stopped ui s (out_of_fuel, d) = (unfinished, d.output)

unfoldable pub main : ℕ → Ui → Start → Exit × List Output
unfolding privileged_initialization lock_initialization popup_dialog_idle auth_loop stopped
main fuel ui s =
    if not (privileged_initialization s)
    then (failure, report accepted ∷ [])
    else if not s.gtk_ready
    then (failure, [])
    else if s.show_version
    then (success, [])
    else if not s.display_supported
    then (failure, [])
    else if not s.xfconf_ready
    then (failure, [])
    else if not (lock_initialization s)
    then (failure, report accepted ∷ [])
    else stopped ui s (auth_loop fuel ui s.attempts (popup_dialog_idle ui s))
