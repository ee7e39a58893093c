-- ===== src/UnlockDialog/Informed.antt =====
-- The messages of PAM that ask nothing (src/xfce4-screensaver-dialog.c with src/gs-auth-pam.c).
use xfce4_screensaver.Base.{
  Bool, true, false, Option, none, some, List, [], ◌∷◌, ◌++◌, String, ◌≡◌, ◌⊎◌, inl, inr, refl,
  arith, ap, ◌≢◌, ◌∙◌, if◌then◌else◌,
}
use xfce4_screensaver.AuthPam.{
  Style, prompt_echo_on, prompt_echo_off, error_msg, text_info, Question, Answer, response,
  interrupt, Conversation, with_reply, pam_conversation,
}
use xfce4_screensaver.AuthPam as Pam
use xfce4_screensaver.LockPlug.{gs_lock_plug_show_message}
use xfce4_screensaver.UnlockDialog.{
  Ui, Dialog, respond, replied, next_turn, auth_message_handler, status_text_should_be_hidden,
  settle,
}
use xfce4_screensaver.UnlockDialog.Program.{Attempt, client}

-- The styles that ask nothing.
unfoldable pub is_message : Style → Bool
is_message prompt_echo_on = false
is_message prompt_echo_off = false
is_message error_msg = true
is_message text_info = true

-- The dialog after such a message: the message is shown, then what is pending happens.
unfoldable pub informed : Ui → Question → Dialog → Dialog
unfolding next_turn status_text_should_be_hidden gs_lock_plug_show_message settle
informed ui q d =
    let (turn, turns) = next_turn d.turns in
    let message = if status_text_should_be_hidden ui q.text then "" else q.text in
    let plug =
      gs_lock_plug_show_message ui.toolkit (some message) (record d.plug { busy = false }) in
    let settled = settle ui turn.pending (record d { turns = turns; plug = plug }) in
    if d.has_quit then d else record settled { plug = record settled.plug { busy = true } }

interrupted : Dialog → Answer × Dialog
interrupted d = (interrupt, d)

pairs :
    (b : Bool) (x y : Dialog)
    → (if b then interrupted x else interrupted y) ≡ interrupted (if b then x else y)
pairs true x y = refl
pairs false x y = refl

handler-informed :
    (ui : Ui) (s : Style) (text : String) (d : Dialog)
    → is_message s ≡ true
    → auth_message_handler ui (record { style = s; text = text }) d
      ≡ interrupted (informed ui (record { style = s; text = text }) d)
unfolding interrupted auth_message_handler respond replied informed is_message
handler-informed ui prompt_echo_on text d e = absurd (cc)
handler-informed ui prompt_echo_off text d e = absurd (cc)
handler-informed ui error_msg text d e = pairs d.has_quit _ _
handler-informed ui text_info text d e = pairs d.has_quit _ _

with_reply-none :
    (reply : Option String) (c : Conversation)
    → c.replies ≡ none
    → (with_reply reply c).replies ≡ none
unfolding with_reply
with_reply-none reply c e = ground arith

with_reply-some :
    (reply : Option String) (c : Conversation)
    → c.replies ≢ none
    → (with_reply reply c).replies ≢ none
unfolding with_reply
with_reply-some reply c h = ground arith

-- How a conversation ends, of which `first` is what precedes a message that asks nothing: that part was
-- interrupted, or the message ended it.
abbrev pub Ends : Ui → Question → Conversation × Dialog → Conversation × Dialog → Type 0
Ends ui q first r =
    ((first.0.replies ≡ none) × (r ≡ first))
    ⊎ ((first.0.replies ≢ none) × (r.0.replies ≡ none) × (r.1 ≡ informed ui q first.1))

Ends-with_reply :
    (ui : Ui) (q : Question) (reply : Option String) (first r : Conversation × Dialog)
    → Ends ui q first r
    → Ends ui q (with_reply reply first.0, first.1) (with_reply reply r.0, r.1)
Ends-with_reply ui q reply first r (inl (e, same)) = inl (
  with_reply-none reply first.0 e,
  ap (λ (x : Conversation × Dialog). (with_reply reply x.0, x.1)) same,
)
Ends-with_reply ui q reply first r (inr (h, e, shown)) =
    inr (with_reply-some reply first.0 h, with_reply-none reply r.0 e, shown)

-- The rest of a conversation after an answer.
asked_next : Answer → Bool → Dialog → Conversation × Dialog → Conversation × Dialog
asked_next a now d r = elim a [
  | interrupt ↦ (record { replies = none; asked = now }, d)
  | response reply ↦ (with_reply reply r.0, r.1)
]

-- The same for the answer to a question before it.
Ends-answer :
    (ui : Ui) (q : Question) (a : Answer) (now : Bool) (d : Dialog)
    (first r : Conversation × Dialog)
    → Ends ui q first r
    → Ends ui q (asked_next a now d first) (asked_next a now d r)
unfolding asked_next
Ends-answer ui q interrupt now d first r h = inl (refl, refl)
Ends-answer ui q (response reply) now d first r h = Ends-with_reply ui q reply first r h

Ends-none :
    (ui : Ui) (q : Question) (first r : Conversation × Dialog)
    → Ends ui q first r
    → r.0.replies ≡ none
Ends-none ui q first r (inl (e, same)) = ap (λ (x : Conversation × Dialog). x.0.replies) same ∙ e
Ends-none ui q first r (inr (h, e, shown)) = e

conversation-Ends :
    (ui : Ui) (a : Attempt) (qs rest : List Question) (q : Question) (asked : Bool) (d : Dialog)
    → is_message q.style ≡ true
    → Ends ui q
        (pam_conversation ui.pam_prompt (client ui a) qs asked d)
        (pam_conversation ui.pam_prompt (client ui a) (qs ++ (q ∷ rest)) asked d)
unfolding pam_conversation client asked_next interrupted
conversation-Ends ui a [] rest q asked d e =
    let now = Pam.auth_message_handler ui.pam_prompt q asked in
    let R = λ (x : Answer × Dialog).
      asked_next x.0 now x.1 (pam_conversation ui.pam_prompt (client ui a) rest now x.1) in
    let ends : R (auth_message_handler ui q d)
        ≡ (record { replies = none; asked = now }, informed ui q d) =
      ap R (handler-informed ui q.style q.text d e) in
    inr (
      (λ bad. cc),
      ap (λ (x : Conversation × Dialog). x.0.replies) ends,
      ap (λ (x : Conversation × Dialog). x.1) ends,
    )
conversation-Ends ui a (p ∷ qs) rest q asked d e =
    let (answer, d1) = auth_message_handler ui p d in
    let now = Pam.auth_message_handler ui.pam_prompt p asked in
    Ends-answer ui q answer now d1 _ _ (conversation-Ends ui a qs rest q now d1 e)

-- A conversation in which PAM shows a message, of information or of an error, fails, without any of the
-- responses. It was interrupted before the message, and then neither the message nor what follows it
-- makes any difference; or it comes to the message: the dialog shows its text, or nothing in place of
-- a prompt for a password, unless it has quit, and handles what is pending; and the conversation ends
-- there, whatever the questions after it are.
pub conversation-informed :
    (ui : Ui) (a : Attempt) (qs rest : List Question) (q : Question) (asked : Bool) (d : Dialog)
    → is_message q.style ≡ true
    → ((pam_conversation ui.pam_prompt (client ui a) (qs ++ (q ∷ rest)) asked d).0.replies ≡ none)
      × Ends ui q
          (pam_conversation ui.pam_prompt (client ui a) qs asked d)
          (pam_conversation ui.pam_prompt (client ui a) (qs ++ (q ∷ rest)) asked d)
conversation-informed ui a qs rest q asked d e =
    let ends = conversation-Ends ui a qs rest q asked d e in (Ends-none ui q _ _ ends, ends)
