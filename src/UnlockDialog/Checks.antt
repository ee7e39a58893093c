-- ===== src/UnlockDialog/Checks.antt =====
-- One check of the password (src/xfce4-screensaver-dialog.c).
use xfce4_screensaver.Base.{
  ◌+◌, ◌%◌, ◌^◌, ◌≤◌, Bool, true, false, Option, some, ltb, if◌then◌else◌, if_elim, option_cases,
  ◌≡◌, sym, ◌∙◌, arith,
}
use xfce4_screensaver.AuthPam.{AuthError, verify_user}
use xfce4_screensaver.UnlockDialog.{Ui, Dialog, printed}
use xfce4_screensaver.UnlockDialog.Program.{
  Attempt, client, check_failed, do_auth_check, max_failures, count_check, auth_check_idle,
}
use xfce4_screensaver.UnlockDialog.Quiet.{IsQuiet, has_accepted, failures}
use xfce4_screensaver.UnlockDialog.Quiet.Asked.{verify-IsQuiet}

-- What PAM's check of an attempt says from a state.
abbrev pub verdict : Ui → Attempt → Dialog → Option Bool
verdict ui a d =
    (verify_user ui.pam_prompt (client ui a) a.calls d.asked d.mask
      (record d { turns = a.turns })).0.result

-- What do_auth_check leaves.
record Checks (d : Dialog) (passes : Option Bool) (r : Option Bool × Dialog) : Type 0 where
  result : r.0 ≡ passes
  counter : r.1.loop_counter ≡ d.loop_counter
  ok_idle : r.1.ok_idle ≡ d.ok_idle
  accepted : has_accepted r.1.output ≡ has_accepted d.output
  failed : failures r.1.output ≤ failures d.output + 1

checked-Checks :
    (ui : Ui) (error : Option AuthError) (d left : Dialog) (res : Bool) (result : Option Bool)
    → result ≡ some res
    → IsQuiet d left
    → Checks d result (some res, if res then left else check_failed ui error left)
unfolding check_failed printed has_accepted failures
checked-Checks ui error d left true result e q = record {
  result = sym e;
  counter = q.counter;
  ok_idle = q.ok_idle;
  accepted = q.accepted;
  failed = omega (arith, q.failed);
}
checked-Checks ui error d left false result e q = record {
  result = sym e;
  counter = q.counter;
  ok_idle = q.ok_idle;
  accepted = q.accepted;
  failed = omega (arith, q.failed);
}

do_auth_check-Checks :
    (ui : Ui) (a : Attempt) (d : Dialog) → Checks d (verdict ui a d) (do_auth_check ui a d)
unfolding do_auth_check
do_auth_check-Checks ui a d =
    let quiet = verify-IsQuiet ui a d in
    let (run, s) =
      verify_user ui.pam_prompt (client ui a) a.calls d.asked d.mask
        (record d { turns = a.turns }) in
    let left = record s { asked = run.asked; mask = run.mask } in
    let left_quiet : IsQuiet d left = record {
      counter = quiet.counter;
      ok_idle = quiet.ok_idle;
      request = quiet.request;
      accepted = quiet.accepted;
      failed = quiet.failed;
    } in
    option_cases (Checks d run.result) run.result
      (λ e. record {
        result = sym e;
        counter = quiet.counter;
        ok_idle = quiet.ok_idle;
        accepted = quiet.accepted;
        failed = omega (arith, quiet.failed);
      })
      (λ res e. checked-Checks ui run.error d left res run.result e left_quiet)

-- What auth_check_idle leaves: the answer is shown only after a check that passed, and it is called
-- again only after one that failed, with a counter below the bound.
pub record IsCounted (ui : Ui) (a : Attempt) (d : Dialog) (r : Option Bool × Dialog) : Type 0 where
  pub accepted : has_accepted r.1.output ≡ has_accepted d.output
  pub failed : failures r.1.output ≤ failures d.output + 1
  pub passed : r.1.ok_idle ≡ true → d.ok_idle ≡ false → verdict ui a d ≡ some true
  pub again :
      r.0 ≡ some true
      → (r.1.ok_idle ≡ d.ok_idle)
        × (r.1.loop_counter ≡ (d.loop_counter + 1) % 2 ^ 32)
        × (ltb r.1.loop_counter max_failures ≡ true)

abbrev Answer : Ui → Attempt → Dialog → Bool × Dialog → Type 0
Answer ui a d r = IsCounted ui a d (some r.0, r.1)

count-IsCounted :
    (ui : Ui) (a : Attempt) (d left : Dialog) (res : Bool)
    → Checks d (verdict ui a d) (some res, left)
    → Answer ui a d (count_check res left)
unfolding count_check
count-IsCounted ui a d left true c = record {
  accepted = c.accepted;
  failed = c.failed;
  passed = λ _ _. sym c.result;
  again = λ bad. absurd (cc);
}
count-IsCounted ui a d left false c =
    let counted = (left.loop_counter + 1) % 2 ^ 32 in
    if_elim (Answer ui a d) (ltb counted max_failures)
      (λ low. record {
        accepted = c.accepted;
        failed = c.failed;
        passed = λ on off. absurd (ground (arith, c.ok_idle, on, off));
        again = λ _. (c.ok_idle, ground (arith, c.counter), low);
      })
      (λ _. record {
        accepted = c.accepted;
        failed = c.failed;
        passed = λ on off. absurd (ground (arith, c.ok_idle, on, off));
        again = λ bad. absurd (cc);
      })

pub auth_check_idle-IsCounted :
    (ui : Ui) (a : Attempt) (d : Dialog) → IsCounted ui a d (auth_check_idle ui a d)
unfolding auth_check_idle
auth_check_idle-IsCounted ui a d =
    let c = do_auth_check-Checks ui a d in
    let (res, left) = do_auth_check ui a d in
    option_cases (IsCounted ui a d) res
      (λ _. record {
        accepted = c.accepted;
        failed = c.failed;
        passed = λ on off. absurd (ground (arith, c.ok_idle, on, off));
        again = λ bad. absurd (cc);
      })
      (λ passed e. count-IsCounted ui a d left passed (record {
        result = sym e ∙ c.result;
        counter = c.counter;
        ok_idle = c.ok_idle;
        accepted = c.accepted;
        failed = c.failed;
      }))
