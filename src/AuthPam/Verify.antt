-- ===== src/AuthPam/Verify.antt =====
-- Whom PAM accepts (src/gs-auth-pam.c).
use xfce4_screensaver.Base.{
  ◌≡◌, Bool, true, false, not, Option, none, some, List, String, if_elim, refl, arith,
}
use xfce4_screensaver.Subprocs.{Mask, block_sigchld, unblock_sigchld}
use xfce4_screensaver.AuthHelper.Balance.{below-above}
use xfce4_screensaver.AuthPam.{
  Status, pam_success, auth_err, is_success, Client, PamCalls, PamRun, pam_conversation,
  gs_auth_thread_func, pam_done, gs_auth_pam_verify_user, verify_user,
}

is_success-true : (s : Status) → is_success s ≡ true → s ≡ pam_success
unfolding is_success
is_success-true pam_success e = refl
is_success-true Status.auth_err e = absurd (cc)
is_success-true Status.user_unknown e = absurd (cc)
is_success-true Status.perm_denied e = absurd (cc)
is_success-true Status.acct_expired e = absurd (cc)
is_success-true Status.other_status e = absurd (cc)

thread-success :
    (calls : PamCalls) (replies : Option (List (Option String)))
    → is_success (gs_auth_thread_func calls replies) ≡ true
    → calls.authenticate replies ≡ pam_success
unfolding gs_auth_thread_func
thread-success calls replies =
    if_elim (λ (s : Status). is_success s ≡ true → calls.authenticate replies ≡ pam_success)
      (not (is_success (calls.authenticate replies))) (λ bad good. absurd (ground arith))
      (λ good _. is_success-true (calls.authenticate replies) (ground arith))

held-back : (m : Mask) → (unblock_sigchld (block_sigchld m)).count ≡ m.count
unfolding unblock_sigchld block_sigchld
held-back m = below-above m.count

module _ {S : Type 0} (prompt : String) (C : Client S) where
  -- What an acceptance says of the run.
  abbrev pub Accepted : PamCalls → Mask → S → PamRun × S → Type 0
  Accepted calls m s r =
      (calls.user_known ≡ true)
      × (calls.authenticate (pam_conversation prompt C calls.questions false s).0.replies
          ≡ pam_success)
      × (r.0.error ≡ none)
      × (r.0.handle_open ≡ false)
      × (r.0.mask.count ≡ m.count)
      × (C.has_quit r.1 ≡ false)

  abbrev Verdict : PamCalls → Mask → S → PamRun × S → Type 0
  Verdict calls m s r = r.0.result ≡ some true → Accepted calls m s r

  refused-Verdict :
      (calls : PamCalls) (m : Mask) (s : S) (asked : Bool) (status : Status)
      → is_success status ≡ false
      → Verdict calls m s (pam_done status asked m, s)
  unfolding pam_done
  refused-Verdict calls m s asked status bad e = absurd (ground arith)

  asked-Verdict :
      (calls : PamCalls) (m : Mask) (s : S)
      → calls.user_known ≡ true
      → Verdict calls m s (gs_auth_pam_verify_user prompt C calls m s)
  unfolding gs_auth_pam_verify_user pam_done
  asked-Verdict calls m s known =
      let R = Verdict calls m s in
      let c = pam_conversation prompt C calls.questions false s in
      if_elim R (not calls.pipe_made) (λ _. refused-Verdict calls m s false auth_err refl)
        λ _.
          if_elim R (not calls.close_on_exec) (λ _. refused-Verdict calls m s false auth_err refl)
            λ _.
              if_elim R (C.has_quit (C.work c.1)) (λ _ e. absurd (cc))
                λ here e.
                  let good : is_success (gs_auth_thread_func calls c.0.replies) ≡ true =
                    ground arith in
                  (
                    known,
                    thread-success calls c.0.replies good,
                    rw good refl,
                    refl,
                    held-back m,
                    here,
                  )

  -- A user is accepted only if the system knows the user and PAM answers the responses that the dialog
  -- gave to its questions with success; and then there is no error, the handle of PAM is closed,
  -- SIGCHLD is held back as often as before, and the dialog has not left its main loop.
  pub verify_user-Accepted :
      (calls : PamCalls) (asked : Bool) (m : Mask) (s : S)
      → (verify_user prompt C calls asked m s).0.result ≡ some true
      → Accepted calls m s (verify_user prompt C calls asked m s)
  unfolding verify_user
  verify_user-Accepted calls asked m s =
      let R = Verdict calls m s in
      if_elim R (not calls.user_known) (λ _ bad. absurd (ground arith))
        λ known.
          if_elim R (not (is_success calls.start))
            (λ e. refused-Verdict calls m s asked calls.start (ground arith))
            λ _.
              if_elim R (not (is_success calls.set_tty))
                (λ e. refused-Verdict calls m s asked calls.set_tty (ground arith))
                (λ _. asked-Verdict calls m s (ground arith))
