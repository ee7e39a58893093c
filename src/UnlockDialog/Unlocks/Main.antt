-- ===== src/UnlockDialog/Unlocks/Main.antt =====
-- The program of src/xfce4-screensaver-dialog.c as a whole.
use xfce4_screensaver.Base.{
  ℕ, zero, suc, ◌+◌, ◌≤◌, ◌<◌, true, false, not, List, if_elim, option_cases, ◌≡◌, ◌≢◌, ◌⊎◌, inl,
  inr, refl, arith, ltb→lt,
}
use xfce4_screensaver.UnlockDialog.{Ui, Output, Dialog, settle}
use xfce4_screensaver.UnlockDialog.Program.{
  Attempt, auth_check_idle, Stop, idle_removed, loop_left, by_signal, out_of_fuel, auth_loop, Start,
  privileged_initialization, lock_initialization, popup_dialog_idle, Exit, unfinished, stopped,
  main, max_failures,
}
use xfce4_screensaver.UnlockDialog.Quiet.{has_accepted, failures, settle-IsQuiet}
use xfce4_screensaver.UnlockDialog.Checks.{auth_check_idle-IsCounted}
use xfce4_screensaver.UnlockDialog.Unlocks.{
  Loops, Passed, start, auth_loop-Loops, close-silent, close-few,
}

-- Why the program may let the user in: it cannot lock, or PAM accepted a check that it came to.
pub MayUnlock : Ui → Start → Type 0
MayUnlock ui s =
    (privileged_initialization s ≡ false)
    ⊎ (lock_initialization s ≡ false)
    ⊎ Passed ui s.attempts (popup_dialog_idle ui s)

popup-Loops :
    (fuel : ℕ) (ui : Ui) (s : Start)
    → Loops ui s.attempts
        (popup_dialog_idle ui s)
        (auth_loop fuel ui s.attempts (popup_dialog_idle ui s))
unfolding popup_dialog_idle has_accepted failures
popup-Loops fuel ui s =
    let first = popup_dialog_idle ui s in
    auth_loop-Loops fuel ui s.attempts first first start refl refl (omega arith) (omega arith)

stopped-Passed :
    (ui : Ui) (s : Start) (stop : Stop) (d : Dialog)
    → Loops ui s.attempts (popup_dialog_idle ui s) (stop, d)
    → has_accepted (stopped ui s (stop, d)).1 ≡ true
    → Passed ui s.attempts (popup_dialog_idle ui s)
unfolding stopped
stopped-Passed ui s idle_removed d l e = l.passed (close-silent ui s.last s.closing d l.silent e)
stopped-Passed ui s loop_left d l e = absurd (ground (arith, l.silent))
stopped-Passed ui s by_signal d l e = absurd (ground (arith, l.silent))
stopped-Passed ui s out_of_fuel d l e = absurd (ground (arith, l.silent))

stopped-few :
    (ui : Ui) (s : Start) (stop : Stop) (d : Dialog)
    → failures d.output ≤ max_failures
    → failures (stopped ui s (stop, d)).1 ≤ max_failures
unfolding stopped
stopped-few ui s idle_removed d few = close-few ui s.last s.closing d few
stopped-few ui s loop_left d few = few
stopped-few ui s by_signal d few = few
stopped-few ui s out_of_fuel d few = few

-- The program prints RESPONSE=OK only if it cannot lock, because its rights cannot be given up or its
-- user is root, or the initialization of locking fails, or after a check that it came to, in which the
-- system knows the user and PAM answers the dialog's responses with success.
pub main-MayUnlock :
    (fuel : ℕ) (ui : Ui) (s : Start) → has_accepted (main fuel ui s).1 ≡ true → MayUnlock ui s
unfolding main MayUnlock has_accepted
main-MayUnlock fuel ui s =
    let R = λ (r : Exit × List Output). has_accepted r.1 ≡ true → MayUnlock ui s in
    let ran = auth_loop fuel ui s.attempts (popup_dialog_idle ui s) in
    if_elim R (not (privileged_initialization s)) (λ bad _. inl (ground arith))
      λ _.
        if_elim R (not s.gtk_ready) (λ _ bad. absurd (ground arith))
          λ _.
            if_elim R s.show_version (λ _ bad. absurd (ground arith))
              λ _.
                if_elim R (not s.display_supported) (λ _ bad. absurd (ground arith))
                  λ _.
                    if_elim R (not s.xfconf_ready) (λ _ bad. absurd (ground arith))
                      λ _.
                        if_elim R (not (lock_initialization s)) (λ bad _. inr (inl (ground arith)))
                          (λ _ e.
                            inr (inr (stopped-Passed ui s ran.0 ran.1 (popup-Loops fuel ui s) e)))

auth_loop-ends :
    (fuel : ℕ) (ui : Ui) (attempts : ℕ → Attempt) (d : Dialog)
    → d.loop_counter < max_failures
    → max_failures ≤ d.loop_counter + fuel
    → (auth_loop fuel ui attempts d).0 ≢ out_of_fuel
unfolding auth_loop
auth_loop-ends zero ui attempts d low enough = absurd (omega arith)
auth_loop-ends (suc fuel) ui attempts d low enough =
    let R = λ (r : Stop × Dialog). r.0 ≢ out_of_fuel in
    let a = attempts d.loop_counter in
    let ready = settle ui a.before d in
    let s = settle-IsQuiet ui a.before d in
    let c = auth_check_idle-IsCounted ui a ready in
    let (answer, d') = auth_check_idle ui a ready in
    if_elim R ready.has_quit (λ _ bad. cc)
      λ _.
        option_cases R answer (λ _ bad. cc)
          λ b e.
            if_elim R b
              (λ is.
                let (_, counted, bound) = c.again (ground arith) in
                auth_loop-ends fuel ui attempts d' (ltb→lt d'.loop_counter max_failures bound)
                  (omega (arith, counted, s.counter)))
              (λ _ bad. cc)

abbrev Fine : Exit × List Output → Type 0
Fine r = (r.0 ≢ unfinished) × (failures r.1 ≤ max_failures)

stopped-ends :
    (ui : Ui) (s : Start) (stop : Stop) (d : Dialog)
    → stop ≢ out_of_fuel
    → (stopped ui s (stop, d)).0 ≢ unfinished
unfolding stopped
stopped-ends ui s idle_removed d ends bad = cc
stopped-ends ui s loop_left d ends bad = cc
stopped-ends ui s by_signal d ends bad = cc
stopped-ends ui s out_of_fuel d ends bad = ends refl

-- The program ends: with the fuel of five checks, or more, it does not run out of it, whatever the user
-- and PAM do; and it reports at most five failed checks.
pub main-ends :
    (fuel : ℕ) (ui : Ui) (s : Start)
    → max_failures ≤ fuel
    → ((main fuel ui s).0 ≢ unfinished) × (failures (main fuel ui s).1 ≤ max_failures)
unfolding main failures popup_dialog_idle
main-ends fuel ui s enough =
    let first = popup_dialog_idle ui s in
    let ran = auth_loop fuel ui s.attempts first in
    let ends = auth_loop-ends fuel ui s.attempts first (omega arith) (omega arith) in
    let loops = popup-Loops fuel ui s in
    if_elim Fine (not (privileged_initialization s)) (λ _. ((λ bad. cc), omega arith))
      λ _.
        if_elim Fine (not s.gtk_ready) (λ _. ((λ bad. cc), omega arith))
          λ _.
            if_elim Fine s.show_version (λ _. ((λ bad. cc), omega arith))
              λ _.
                if_elim Fine (not s.display_supported) (λ _. ((λ bad. cc), omega arith))
                  λ _.
                    if_elim Fine (not s.xfconf_ready) (λ _. ((λ bad. cc), omega arith))
                      λ _.
                        if_elim Fine (not (lock_initialization s)) (λ _. ((λ bad. cc), omega arith))
                          (λ _. (
                            stopped-ends ui s ran.0 ran.1 ends,
                            stopped-few ui s ran.0 ran.1 loops.few,
                          ))
