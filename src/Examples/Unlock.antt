-- ===== src/Examples/Unlock.antt =====
-- The theorems on the unlock dialog (src/xfce4-screensaver-dialog.c), alone and with the daemon, at
-- concrete events.
use xfce4_screensaver.Base.{
  ℕ, zero, sym, inl, inr, All, ◌≤◌, Bool, true, false, Option, none, some, List, [], ◌∷◌, ◌++◌,
  String, str_eq, if◌then◌else◌, ◌≡◌, ◌≢◌, refl, arith,
}
use xfce4_screensaver.Base.Int.{pos}
use xfce4_screensaver.AuthPam.{
  prompt_echo_off, text_info, Question, PamCalls, pam_success, auth_err, pam_conversation,
}
use xfce4_screensaver.LockPlug.Run.{key_press, unlock_clicked}
use xfce4_screensaver.Window.Dialog.{read_line}
use mathlib.Core.Path.{subst}
use xfce4_screensaver.Window.Dialog.{line}
use xfce4_screensaver.Window.{add_emit_deactivated_idle}
use xfce4_screensaver.Manager.Dialogs.{dialog_process_watch}
use xfce4_screensaver.Manager.Step.{step, dialog_output}
use xfce4_screensaver.Monitor.{notify, DaemonEvent, manager_event, run}
use xfce4_screensaver.Monitor.Lock.{LockedDaemon}
use xfce4_screensaver.Unlocking.{MayHappen, run-MayUnlock}
use xfce4_screensaver.Examples.{platform}
use xfce4_screensaver.Examples.Listeners.{locked}
use xfce4_screensaver.UnlockDialog.{accepted, auth_failed, report, Ui, on_plug, window_id}
use xfce4_screensaver.UnlockDialog.Program.{
  Attempt, Start, unfinished, main, max_failures, client, popup_dialog_idle,
}
use xfce4_screensaver.UnlockDialog.Quiet.{has_accepted, failures}
use xfce4_screensaver.UnlockDialog.Informed.{is_message, Ends, conversation-informed}
use xfce4_screensaver.UnlockDialog.Lines.{meaning, output_text, read_line-output_text}
use xfce4_screensaver.UnlockDialog.Unlocks.Main.{MayUnlock, main-MayUnlock, main-ends}
use xfce4_screensaver.Examples.Plug.{toolkit, key, options}

abbrev ui : Ui
ui = record {
  toolkit = toolkit;
  pam_prompt = "Password: ";
  checking = "Checking...";
  time_expired = "Time has expired.";
  authentication_failed = "Authentication failed.";
  error_text = λ e. "Incorrect password.";
}

-- PAM takes one password.
abbrev right_replies : Option (List (Option String)) → Bool
right_replies (some (some text ∷ [])) = str_eq text "secret"
right_replies _ = false

abbrev calls : PamCalls
calls = record {
  user_known = true;
  start = pam_success;
  set_tty = pam_success;
  pipe_made = true;
  close_on_exec = true;
  questions = record { style = prompt_echo_off; text = "Password: " } ∷ [];
  authenticate = λ replies. elim (right_replies replies) [ true ↦ pam_success | false ↦ auth_err ];
  get_user = pam_success;
}

-- The second attempt is right.
abbrev password : ℕ → String
password zero = "other"
password _ = "secret"

abbrev attempts : ℕ → Attempt
attempts n = record {
  before = [];
  turns =
      record {
        asking = on_plug (key_press (key (password n))) ∷ on_plug unlock_clicked ∷ [];
        pending = [];
      }
      ∷ [];
  working = [];
  calls = calls;
}

abbrev session : Start
session = record {
  ids = record { uid = 1000; euid = 1000; gid = 100; egid = 100 };
  kernel = record { setgroups = λ g s. none; setgid = λ g s. none; setuid = λ u s. none };
  gtk_ready = true;
  show_version = false;
  display_supported = true;
  xfconf_ready = true;
  auth_ready = true;
  under_mdm = false;
  options = options;
  id = "42";
  caps_lock = false;
  mask = record { count = pos 0; blocked = false };
  attempts = attempts;
  last = [];
  closing = [];
}

lets_in : has_accepted (main 5 ui session).1 ≡ true
unfolding main has_accepted
lets_in = refl

one_failure : failures (main 5 ui session).1 ≡ 1
unfolding main failures
one_failure = refl

main-MayUnlock_example : MayUnlock ui session
main-MayUnlock_example = main-MayUnlock 5 ui session lets_in

main-ends_example :
    ((main 5 ui session).0 ≢ unfinished) × (failures (main 5 ui session).1 ≤ max_failures)
main-ends_example = main-ends 5 ui session (omega arith)

-- A module of PAM that says what it waits for.
abbrev message : Question
message = record { style = text_info; text = "Touch the reader" }

conversation-informed_example :
    ((pam_conversation ui.pam_prompt
        (client ui (attempts 0))
        (calls.questions ++ (message ∷ []))
        false
        (popup_dialog_idle ui session)).0.replies
      ≡ none)
    × Ends ui message
        (pam_conversation ui.pam_prompt
          (client ui (attempts 0))
          calls.questions
          false
          (popup_dialog_idle ui session))
        (pam_conversation ui.pam_prompt
          (client ui (attempts 0))
          (calls.questions ++ (message ∷ []))
          false
          (popup_dialog_idle ui session))
unfolding is_message
conversation-informed_example =
    conversation-informed ui (attempts 0) calls.questions [] message false
      (popup_dialog_idle ui session) refl

-- C's sscanf on the one line.
abbrev scan : String → Option ℕ
scan text = if str_eq text "WINDOW ID=42\n" then some 42 else none

read_line-output_text_example :
    read_line scan (output_text (window_id "42")) ≡ meaning scan (window_id "42")
read_line-output_text_example = read_line-output_text scan (window_id "42")

-- The daemon reads a failure and then the answer of that dialog.
abbrev lines : List DaemonEvent
lines =
    manager_event (dialog_output 0 (line "NOTICE=AUTH FAILED\n"))
    ∷ manager_event (dialog_output 0 (line "RESPONSE=OK\n"))
    ∷ []

prints : (main 5 ui session).1 ≡ report accepted ∷ report auth_failed ∷ window_id "42" ∷ []
unfolding main
prints = refl

lines_printed : All (MayHappen platform (main 5 ui session).1) lines
unfolding output_text
lines_printed =
    subst (λ out. All (MayHappen platform out) lines) (sym prints)
      (
        inr (0, "NOTICE=AUTH FAILED\n", refl, inr (inl refl)),
        (inr (0, "RESPONSE=OK\n", refl, inl refl), tt),
      )

begins_unlock : ¬ LockedDaemon (run platform lines locked)
unfolding run notify step dialog_process_watch read_line add_emit_deactivated_idle
begins_unlock = λ h. let bad : true ≡ false = h.kept.0.1 in cc

locked-LockedDaemon : LockedDaemon locked
locked-LockedDaemon = ground arith

run-MayUnlock_example : MayUnlock ui session
run-MayUnlock_example =
    run-MayUnlock platform 5 ui session lines locked lines_printed locked-LockedDaemon begins_unlock
