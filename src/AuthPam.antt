-- ===== src/AuthPam.antt =====
-- src/gs-auth-pam.c: the password is checked by PAM, which asks questions on a thread of its own. The
-- PAM library, the answers of the dialog and those of the system are parameters; the conversion of a
-- question's text to UTF-8 is left out.
pub mod Verify
pub mod Keeps
use xfce4_screensaver.Base.{
  ℕ, Bool, true, false, ◌||◌, not, Option, none, some, List, [], ◌∷◌, String, str_eq, if◌then◌else◌,
}
use xfce4_screensaver.Subprocs.{Mask, block_sigchld, unblock_sigchld}

-- The results of PAM that the source tells apart.
pub data Status : Type 0 where
  pam_success auth_err user_unknown perm_denied acct_expired other_status : Status

unfoldable pub is_success : Status → Bool
is_success pam_success = true
is_success _ = false

-- GSAuthMessageStyle, which has the styles of PAM.
pub data Style : Type 0 where
  prompt_echo_on prompt_echo_off error_msg text_info : Style

pub record Question : Type 0 where
  pub style : Style
  pub text : String

-- The dialog's answer to a question: the response, or an interruption.
pub data Answer : Type 0 where
  response : Option String → Answer
  interrupt : Answer

-- auth_message_handler: whether the last hidden prompt asked for the password. `prompt` is PAM's own
-- text for it, translated.
unfoldable pub auth_message_handler : String → Question → Bool → Bool
auth_message_handler prompt q asked = elim q.style [
  | prompt_echo_on ↦ asked
  | prompt_echo_off ↦ str_eq q.text prompt || str_eq q.text "Password:"
  | error_msg ↦ asked
  | text_info ↦ asked
]

-- What a conversation leaves: the responses, or `none` for PAM_CONV_ERR, and did_we_ask_for_password.
pub record Conversation : Type 0 where
  pub replies : Option (List (Option String))
  pub asked : Bool

unfoldable pub with_reply : Option String → Conversation → Conversation
with_reply reply c = elim c.replies [
  | none ↦ c
  | some rs ↦ record c { replies = some (reply ∷ rs) }
]

-- What the caller of gs_auth_verify_user is asked through: its answer to a message, what its main loop
-- handles while PAM works after the messages, and whether that loop has been left.
pub record Client (S : Type 0) : Type 0 where
  pub ask : Question → S → Answer × S
  pub work : S → S
  pub has_quit : S → Bool

-- pam_conversation: it ends at the first interruption.
unfoldable pub pam_conversation :
    {S : Type 0} → String → Client S → List Question → Bool → S → Conversation × S
unfolding auth_message_handler with_reply
pam_conversation prompt C [] asked s = (record { replies = some []; asked = asked }, s)
pam_conversation prompt C (q ∷ qs) asked s =
    let now = auth_message_handler prompt q asked in
    let (answer, s1) = C.ask q s in
    let (rest, s2) = pam_conversation prompt C qs now s1 in
    elim answer [
      | interrupt ↦ (record { replies = none; asked = now }, s1)
      | response reply ↦ (with_reply reply rest, s2)
    ]

-- What PAM and the system do: the questions of one conversation, the result of pam_authenticate for
-- the responses, and the results of the other calls.
pub record PamCalls : Type 0 where
  pub user_known : Bool
  pub start : Status
  pub set_tty : Status
  pub pipe_made : Bool
  pub close_on_exec : Bool
  pub questions : List Question
  pub authenticate : Option (List (Option String)) → Status
  pub get_user : Status

-- gs_auth_thread_func: the account and the credentials make no difference.
unfoldable pub gs_auth_thread_func : PamCalls → Option (List (Option String)) → Status
unfolding is_success
gs_auth_thread_func calls replies =
    let status = calls.authenticate replies in
    if not (is_success status) then status else calls.get_user

-- The messages of set_pam_error.
pub data AuthError : Type 0 where
  incorrect_password authentication_failed not_permitted no_longer_permitted : AuthError

unfoldable pub set_pam_error : Status → Bool → Option AuthError
set_pam_error auth_err asked = some (if asked then incorrect_password else authentication_failed)
set_pam_error user_unknown asked =
    some (if asked then incorrect_password else authentication_failed)
set_pam_error perm_denied asked = some not_permitted
set_pam_error acct_expired asked = some no_longer_permitted
set_pam_error _ asked = none

-- What gs_auth_verify_user leaves: its result, or `none` where the program ends itself by SIGTERM, the
-- error, whether a PAM handle is open, the signal mask, and did_we_ask_for_password.
pub record PamRun : Type 0 where
  pub result : Option Bool
  pub error : Option AuthError
  pub handle_open : Bool
  pub mask : Mask
  pub asked : Bool

-- The label `done` of gs_auth_verify_user, with close_pam_handle.
unfoldable pub pam_done : Status → Bool → Mask → PamRun
unfolding is_success set_pam_error
pam_done status asked m = record {
  result = some (is_success status);
  error = if is_success status then none else set_pam_error status asked;
  handle_open = false;
  mask = m;
  asked = asked;
}

-- gs_auth_pam_verify_user and what follows it; the thread holds SIGCHLD back while it asks. A loop that
-- is left before the thread is done ends the program.
unfoldable pub gs_auth_pam_verify_user :
    {S : Type 0} → String → Client S → PamCalls → Mask → S → PamRun × S
unfolding pam_conversation gs_auth_thread_func pam_done block_sigchld unblock_sigchld
gs_auth_pam_verify_user prompt C calls m s =
    let (c, asked_state) = pam_conversation prompt C calls.questions false s in
    let s' = C.work asked_state in
    let after = unblock_sigchld (block_sigchld m) in
    if not calls.pipe_made
    then (pam_done auth_err false m, s)
    else if not calls.close_on_exec
    then (pam_done auth_err false m, s)
    else if C.has_quit s'
    then (
      record {
        result = none;
        error = none;
        handle_open = true;
        mask = block_sigchld m;
        asked = c.asked;
      },
      s',
    )
    else (pam_done (gs_auth_thread_func calls c.replies) c.asked after, s')

-- gs_auth_verify_user, with create_pam_handle. An earlier did_we_ask_for_password is what an error of
-- the start of PAM is worded by.
unfoldable pub verify_user :
    {S : Type 0} → String → Client S → PamCalls → Bool → Mask → S → PamRun × S
unfolding is_success pam_done gs_auth_pam_verify_user
verify_user prompt C calls asked m s =
    if not calls.user_known
    then (
      record { result = some false; error = none; handle_open = false; mask = m; asked = asked },
      s,
    )
    else if not (is_success calls.start)
    then (pam_done calls.start asked m, s)
    else if not (is_success calls.set_tty)
    then (pam_done calls.set_tty asked m, s)
    else gs_auth_pam_verify_user prompt C calls m s
