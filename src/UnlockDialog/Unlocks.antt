-- ===== src/UnlockDialog/Unlocks.antt =====
-- When the program says that the screen may be unlocked, and that it ends
-- (src/xfce4-screensaver-dialog.c).
pub mod Main
use xfce4_screensaver.Base.{
  ℕ, zero, suc, ◌+◌, ◌-◌, ◌%◌, ◌^◌, ◌≤◌, ◌<◌, Bool, true, false, not, Option, none, some, List, [],
  ◌∷◌, ltb, if◌then◌else◌, if_elim, option_cases, ◌≡◌, ◌≢◌, ◌⊎◌, inl, inr, refl, sym, ◌∙◌, arith,
  Bool-cases, ltb→lt,
}
use xfce4_screensaver.AuthPam.{pam_success, pam_conversation}
use xfce4_screensaver.AuthPam.Verify
use xfce4_screensaver.AuthPam.Verify.{verify_user-Accepted}
use xfce4_screensaver.UnlockDialog.{
  quit_requested, Ui, Happens, Output, report, accepted, Dialog, settle, quit_response_ok, printed,
  gtk_main_quit,
}
use xfce4_screensaver.UnlockDialog.Program.{
  Attempt, client, auth_check_idle, Stop, idle_removed, loop_left, by_signal, out_of_fuel,
  auth_loop, close_dialog, Start, privileged_initialization, lock_initialization, popup_dialog_idle,
  Exit, failure, success, unfinished, stopped, main, max_failures,
}
use xfce4_screensaver.UnlockDialog.Quiet.{has_accepted, failures, IsQuiet, settle-IsQuiet}
use xfce4_screensaver.UnlockDialog.Checks.{verdict, IsCounted, auth_check_idle-IsCounted}

-- The states of the program before a check: at first, and after a check that is repeated.
pub data Reached (ui : Ui) (attempts : ℕ → Attempt) (first : Dialog) : Dialog → Type 0 where
  start : Reached ui attempts first first
  again :
      (d d' : Dialog)
      → Reached ui attempts first d
      → auth_check_idle ui (attempts d.loop_counter) (settle ui (attempts d.loop_counter).before d)
        ≡ (some true, d')
      → Reached ui attempts first d'

-- PAM accepted the responses of a check that the program came to.
pub record Passed (ui : Ui) (attempts : ℕ → Attempt) (first : Dialog) : Type 0 where
  pub state : Dialog
  pub reached : Reached ui attempts first state
  pub known : (attempts state.loop_counter).calls.user_known ≡ true
  pub accepted :
      (attempts state.loop_counter).calls.authenticate
        (pam_conversation ui.pam_prompt
          (client ui (attempts state.loop_counter))
          (attempts state.loop_counter).calls.questions
          false
          (record (settle ui (attempts state.loop_counter).before state) {
            turns = (attempts state.loop_counter).turns;
          })).0.replies
      ≡ pam_success

verdict-Passed :
    (ui : Ui) (attempts : ℕ → Attempt) (first d : Dialog)
    → Reached ui attempts first d
    → verdict ui (attempts d.loop_counter) (settle ui (attempts d.loop_counter).before d)
      ≡ some true
    → Passed ui attempts first
verdict-Passed ui attempts first d reached e =
    let a = attempts d.loop_counter in
    let ready = settle ui a.before d in
    let pam =
      verify_user-Accepted ui.pam_prompt (client ui a) a.calls ready.asked ready.mask
        (record ready { turns = a.turns }) e in
    record { state = d; reached = reached; known = pam.0; accepted = pam.1 }

-- What the checks leave.
pub record Loops (ui : Ui) (attempts : ℕ → Attempt) (first : Dialog) (r : Stop × Dialog)
    : Type 0 where
  pub silent : has_accepted r.1.output ≡ false
  pub passed : r.1.ok_idle ≡ true → Passed ui attempts first
  pub few : failures r.1.output ≤ max_failures

pub auth_loop-Loops :
    (fuel : ℕ) (ui : Ui) (attempts : ℕ → Attempt) (first d : Dialog)
    → Reached ui attempts first d
    → has_accepted d.output ≡ false
    → d.ok_idle ≡ false
    → failures d.output ≤ d.loop_counter
    → d.loop_counter < max_failures
    → Loops ui attempts first (auth_loop fuel ui attempts d)
unfolding auth_loop
auth_loop-Loops zero ui attempts first d reached quiet off few low = record {
  silent = quiet;
  passed = λ on. absurd (cc);
  few = omega arith;
}
auth_loop-Loops (suc fuel) ui attempts first d reached quiet off few low =
    let R = Loops ui attempts first in
    let a = attempts d.loop_counter in
    let ready = settle ui a.before d in
    let s = settle-IsQuiet ui a.before d in
    let c = auth_check_idle-IsCounted ui a ready in
    let (answer, d') = auth_check_idle ui a ready in
    let ended : (stop : Stop) → R (stop, d') = λ stop. record {
      silent = c.accepted ∙ s.accepted ∙ quiet;
      passed = λ on. verdict-Passed ui attempts first d reached (c.passed on (s.ok_idle ∙ off));
      few = omega (arith, c.failed, s.failed);
    } in
    if_elim R ready.has_quit
      (λ _. record {
        silent = s.accepted ∙ quiet;
        passed = λ on. absurd (ground (arith, s.ok_idle));
        few = omega (arith, s.failed);
      })
      λ _.
        option_cases R answer (λ _. ended by_signal)
          λ b e.
            if_elim R b
              (λ is.
                let (kept, counted, bound) = c.again (ground arith) in
                let low' : d'.loop_counter < max_failures =
                  ltb→lt d'.loop_counter max_failures bound in
                let few' : failures d'.output ≤ d'.loop_counter =
                  omega (arith, c.failed, s.failed, counted, s.counter) in
                auth_loop-Loops fuel ui attempts first d'
                  (again d d' reached (ground (arith, e, is))) (c.accepted ∙ s.accepted ∙ quiet)
                  (kept ∙ s.ok_idle ∙ off) few' low')
              (λ _. ended idle_removed)

-- The end of the loop prints the answer only after a check that passed.
pub close-silent :
    (ui : Ui) (last closing : List Happens) (d : Dialog)
    → has_accepted d.output ≡ false
    → has_accepted (close_dialog ui last closing d).output ≡ true
    → d.ok_idle ≡ true
unfolding close_dialog quit_response_ok printed gtk_main_quit has_accepted
close-silent ui last closing d quiet =
    let s = settle-IsQuiet ui last d in
    let d1 = settle ui last d in
    let asked = printed quit_requested d1 in
    let after = settle-IsQuiet ui closing asked in
    let R = λ (e : Dialog). has_accepted e.output ≡ true → d.ok_idle ≡ true in
    let silent : has_accepted d1.output ≡ false = s.accepted ∙ quiet in
    if_elim R d1.has_quit (λ _ bad. absurd (ground (arith, silent)))
      λ _.
        if_elim R d1.ok_idle (λ on _. sym s.ok_idle ∙ on)
          λ _.
            if_elim R d1.request_quit_idle
              (λ _ bad. absurd (ground (arith, silent, after.accepted, bad)))
              (λ _ bad. absurd (ground (arith, silent)))

pub close-few :
    (ui : Ui) (last closing : List Happens) (d : Dialog)
    → failures d.output ≤ max_failures
    → failures (close_dialog ui last closing d).output ≤ max_failures
unfolding close_dialog quit_response_ok printed gtk_main_quit failures
close-few ui last closing d few =
    let s = settle-IsQuiet ui last d in
    let d1 = settle ui last d in
    let after = settle-IsQuiet ui closing (printed quit_requested d1) in
    let R = λ (e : Dialog). failures e.output ≤ max_failures in
    if_elim R d1.has_quit (λ _. omega (arith, s.failed))
      λ _.
        if_elim R d1.ok_idle (λ _. omega (arith, s.failed))
          λ _.
            if_elim R d1.request_quit_idle (λ _. omega (arith, s.failed, after.failed))
              (λ _. omega (arith, s.failed))
