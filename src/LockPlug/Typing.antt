-- ===== src/LockPlug/Typing.antt =====
-- The keys that come before the prompt is ready (src/gs-lock-plug.c).
use xfce4_screensaver.Base.{
  Bool, true, false, not, List, [], ◌∷◌, ◌++◌, String, str_eq, All, ◌≡◌, refl, sym, ◌∙◌, arith,
}
use mathlib.Core.Path.{subst}
use xfce4_screensaver.LockPlug.{
  KeyEvent, Plug, Toolkit, toggle_infobar_visibility, remove_cancel_timeout, restart_cancel_timeout,
  queue_key_event, forward_each, reverse_onto, forward_key_events, gs_lock_plug_enable_prompt,
  entry_key_press,
}

-- Keys pressed one after another.
unfoldable pub press_all : Toolkit → List KeyEvent → Plug → Plug
unfolding entry_key_press
press_all t [] p = p
press_all t (k ∷ ks) p = press_all t ks (entry_key_press t k p)

-- The entry's text after keys.
unfoldable pub typed : Toolkit → List KeyEvent → String → String
typed t [] text = text
typed t (k ∷ ks) text = typed t ks (t.type_key k text)

typed-append :
    (t : Toolkit) (ks ls : List KeyEvent) (text : String)
    → typed t (ks ++ ls) text ≡ typed t ls (typed t ks text)
unfolding typed
typed-append t [] ls text = refl
typed-append t (k ∷ ks) ls text = typed-append t ks ls (t.type_key k text)

forward_each-typed :
    (t : Toolkit) (ks : List KeyEvent) (p : Plug)
    → (forward_each t ks p).entry_text ≡ typed t ks p.entry_text
unfolding forward_each typed
forward_each-typed t [] p = refl
forward_each-typed t (k ∷ ks) p =
    forward_each-typed t ks (record p { key_events = ks; entry_text = t.type_key k p.entry_text })

forward_each-empty :
    (t : Toolkit) (ks : List KeyEvent) (p : Plug) → (forward_each t ks p).key_events ≡ []
unfolding forward_each
forward_each-empty t [] p = refl
forward_each-empty t (k ∷ ks) p =
    forward_each-empty t ks (record p { key_events = ks; entry_text = t.type_key k p.entry_text })

reverse_onto-append :
    (ks done more : List KeyEvent) → reverse_onto ks (done ++ more) ≡ reverse_onto ks done ++ more
unfolding reverse_onto
reverse_onto-append [] done more = refl
reverse_onto-append (k ∷ ks) done more = reverse_onto-append ks (k ∷ done) more

forward-typed :
    (t : Toolkit) (p : Plug)
    → (forward_key_events t p).entry_text ≡ typed t (reverse_onto p.key_events []) p.entry_text
unfolding forward_key_events
forward-typed t p = forward_each-typed t (reverse_onto p.key_events []) p

key-queued :
    (t : Toolkit) (k : KeyEvent) (p : Plug)
    → p.entry_sensitive ≡ false
    → str_eq k.text "" ≡ false
    → entry_key_press t k p ≡ queue_key_event k (restart_cancel_timeout p)
unfolding entry_key_press restart_cancel_timeout remove_cancel_timeout queue_key_event
key-queued t k p off text = ground arith

-- Before the prompt the keys are queued.
press_all-queued :
    (t : Toolkit) (ks : List KeyEvent) (p : Plug)
    → p.entry_sensitive ≡ false
    → All (λ (k : KeyEvent). str_eq k.text "" ≡ false) ks
    → ((press_all t ks p).key_events ≡ reverse_onto ks p.key_events)
      × ((press_all t ks p).entry_text ≡ p.entry_text)
unfolding press_all restart_cancel_timeout remove_cancel_timeout queue_key_event reverse_onto
press_all-queued t [] p off texts = (refl, refl)
press_all-queued t (k ∷ ks) p off texts =
    subst
      (λ (q : Plug).
        ((press_all t ks q).key_events ≡ reverse_onto ks (k ∷ p.key_events))
        × ((press_all t ks q).entry_text ≡ p.entry_text))
      (sym (key-queued t k p off texts.0))
      (press_all-queued t ks (queue_key_event k (restart_cancel_timeout p)) off texts.1)

key-typed :
    (t : Toolkit) (k : KeyEvent) (p : Plug)
    → p.entry_shown ≡ true
    → p.entry_sensitive ≡ true
    → entry_key_press t k p
      ≡ record (restart_cancel_timeout p) { entry_text = t.type_key k p.entry_text }
unfolding entry_key_press restart_cancel_timeout remove_cancel_timeout
key-typed t k p on sensitive = ground arith

-- At the prompt they reach the entry.
press_all-typed :
    (t : Toolkit) (ks : List KeyEvent) (p : Plug)
    → p.entry_shown ≡ true
    → p.entry_sensitive ≡ true
    → (press_all t ks p).entry_text ≡ typed t ks p.entry_text
unfolding press_all restart_cancel_timeout remove_cancel_timeout typed
press_all-typed t [] p on sensitive = refl
press_all-typed t (k ∷ ks) p on sensitive =
    let reached = record (restart_cancel_timeout p) { entry_text = t.type_key k p.entry_text } in
    subst (λ (q : Plug). (press_all t ks q).entry_text ≡ typed t ks (t.type_key k p.entry_text))
      (sym (key-typed t k p on sensitive)) (press_all-typed t ks reached on sensitive)

reverse_onto-twice :
    (ks queue : List KeyEvent) → reverse_onto (reverse_onto ks queue) [] ≡ reverse_onto queue ks
unfolding reverse_onto
reverse_onto-twice [] queue = refl
reverse_onto-twice (k ∷ ks) queue = reverse_onto-twice ks (k ∷ queue)

forward_each-ready :
    (t : Toolkit) (ks : List KeyEvent) (p : Plug)
    → ((forward_each t ks p).entry_shown ≡ p.entry_shown)
      × ((forward_each t ks p).entry_sensitive ≡ p.entry_sensitive)
unfolding forward_each
forward_each-ready t [] p = (refl, refl)
forward_each-ready t (k ∷ ks) p =
    forward_each-ready t ks (record p { key_events = ks; entry_text = t.type_key k p.entry_text })

enable_prompt-typed :
    (t : Toolkit) (message : String) (visible : Bool) (p : Plug)
    → ((gs_lock_plug_enable_prompt t message visible p).entry_text
        ≡ typed t (reverse_onto p.key_events []) p.entry_text)
      × ((gs_lock_plug_enable_prompt t message visible p).key_events ≡ [])
      × ((gs_lock_plug_enable_prompt t message visible p).entry_shown ≡ true)
      × ((gs_lock_plug_enable_prompt t message visible p).entry_sensitive ≡ true)
unfolding gs_lock_plug_enable_prompt forward_key_events restart_cancel_timeout remove_cancel_timeout
    toggle_infobar_visibility
enable_prompt-typed t message visible p =
    let keys = reverse_onto p.key_events [] in
    let ready =
      record (toggle_infobar_visibility (record p {
        unlock_sensitive = true;
        prompt = message;
        prompt_shown = not (str_eq message "");
      })) {
        entry_visibility = visible;
        conceal_icon = visible;
        entry_sensitive = true;
        entry_shown = true;
      } in
    let (shown, sensitive) = forward_each-ready t keys ready in
    (forward_each-typed t keys ready, forward_each-empty t keys ready, shown, sensitive)

-- The keys that are pressed while the entry is insensitive, each of which stands for a text, are not
-- lost and keep their order: once the prompt is enabled, the entry has the text that the same keys
-- would have left when pressed at the prompt, after those queued before, and no key is queued.
pub enable_prompt-press_all :
    (t : Toolkit) (message : String) (visible : Bool) (ks : List KeyEvent) (p : Plug)
    → p.entry_sensitive ≡ false
    → All (λ (k : KeyEvent). str_eq k.text "" ≡ false) ks
    → ((gs_lock_plug_enable_prompt t message visible (press_all t ks p)).entry_text
        ≡ (press_all t ks (gs_lock_plug_enable_prompt t message visible p)).entry_text)
      × ((gs_lock_plug_enable_prompt t message visible (press_all t ks p)).key_events ≡ [])
enable_prompt-press_all t message visible ks p off texts =
    let (keys, text) = press_all-queued t ks p off texts in
    let (late, empty, _, _) = enable_prompt-typed t message visible (press_all t ks p) in
    let prompted = gs_lock_plug_enable_prompt t message visible p in
    let (early, _, shown, sensitive) = enable_prompt-typed t message visible p in
    let at_prompt = press_all-typed t ks prompted shown sensitive in
    let old = reverse_onto p.key_events [] in
    let order : reverse_onto (press_all t ks p).key_events [] ≡ old ++ ks =
      rw keys (reverse_onto-twice ks p.key_events ∙ reverse_onto-append p.key_events [] ks) in
    let both = typed-append t old ks p.entry_text in
    (ground (arith, late, order, text, both, early, at_prompt), empty)
