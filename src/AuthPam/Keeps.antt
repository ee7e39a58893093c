-- ===== src/AuthPam/Keeps.antt =====
-- What the dialog's handlers keep, the check of a password keeps (src/gs-auth-pam.c).
use xfce4_screensaver.Base.{Bool, not, Option, List, [], ◌∷◌, String, if_elim, false}
use xfce4_screensaver.Subprocs.{Mask}
use xfce4_screensaver.AuthPam.{
  is_success, auth_message_handler, Question, Answer, response, interrupt, Client, Conversation,
  PamCalls, PamRun, pam_conversation, gs_auth_pam_verify_user, verify_user,
}

pub answer_elim {ℓ κ} :
    {B : Type ℓ} (R : B → Type κ) (a : Answer) {b : B} {f : Option String → B}
    → R b
    → ((reply : Option String) → R (f reply))
    → R (elim a [ interrupt ↦ b | response reply ↦ f reply ])
answer_elim R interrupt stop go_on = stop
answer_elim R (response reply) stop go_on = go_on reply

module _ {S : Type 0} (prompt : String) (C : Client S) (P : S → Type 0)
    (asks : (q : Question) (s : S) → P s → P (C.ask q s).1)
    (works : (s : S) → P s → P (C.work s)) where
  pam_conversation-Keeps :
      (qs : List Question) (asked : Bool) (s : S) → P s → P (pam_conversation prompt C qs asked s).1
  unfolding pam_conversation
  pam_conversation-Keeps [] asked s h = h
  pam_conversation-Keeps (q ∷ qs) asked s h =
      let h' = asks q s h in
      let (answer, s1) = C.ask q s in
      let now = auth_message_handler prompt q asked in
      answer_elim (λ (r : Conversation × S). P r.1) answer h'
        (λ reply. pam_conversation-Keeps qs now s1 h')

  abbrev After : PamRun × S → Type 0
  After r = P r.1

  pub verify_user-Keeps :
      (calls : PamCalls) (asked : Bool) (m : Mask) (s : S)
      → P s
      → P (verify_user prompt C calls asked m s).1
  unfolding verify_user gs_auth_pam_verify_user
  verify_user-Keeps calls asked m s h =
      let h' = works _ (pam_conversation-Keeps calls.questions false s h) in
      let c = pam_conversation prompt C calls.questions false s in
      if_elim After (not calls.user_known) (λ _. h)
        λ _.
          if_elim After (not (is_success calls.start)) (λ _. h)
            λ _.
              if_elim After (not (is_success calls.set_tty)) (λ _. h)
                λ _.
                  if_elim After (not calls.pipe_made) (λ _. h)
                    λ _.
                      if_elim After (not calls.close_on_exec) (λ _. h)
                        (λ _. if_elim After (C.has_quit (C.work c.1)) (λ _. h') (λ _. h'))
