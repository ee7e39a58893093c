-- ===== src/Command/Replies.antt =====
-- What the daemon answers to each message of src/xfce4-screensaver-command.c, and what the bus makes of
-- it.
use xfce4_screensaver.Base.{
  ◌≡◌, Bool, true, false, ◌&&◌, inl, inr, Option, none, some, [], ◌∷◌, if◌then◌else◌, refl, arith,
  ap, ◌∙◌, sym, Bool-cases,
}
use mathlib.Core.Path.{subst}
use xfce4_screensaver.ListenerDbus.{World, Handlers, inhibit}
use xfce4_screensaver.ListenerDbus.Activation.{activate_saver}
use xfce4_screensaver.ListenerDbus.Refs.{get_ref_entries}
use xfce4_screensaver.ListenerDbus.Messages.{
  Message, Reply, unanswered, entries, boolean, seconds, handled, bool_arg, active_time,
  add_entry_call,
}
use xfce4_screensaver.Command.{
  Options, Caller, state, inhibitors, active_for, no_reply, unable_to_send, Ending, leaves,
  keeps_inhibitor, Fate, unsent, overdue, in_time, Bus, Talk, say, message, inhibit_message, sent,
  tell, query, time, ask_inhibit, read_active, read_inhibitors, read_time, read_cookie, reply_of,
  screensaver_send_message,
}

unfoldable pub is_in_time : Fate → Bool
is_in_time in_time = true
is_in_time _ = false

module _ {S : Type 0} where
  -- A message that makes the daemon `w` if it comes to it.
  unfoldable pub brought : Fate → World S → Talk S → Talk S
  unfolding say
  brought unsent w t = say unable_to_send t
  brought overdue w t = record t { world = w }
  brought in_time w t = record t { world = w }

  sent-brought :
      (f : Fate) (reply : Option Reply) (w : World S) (t : Talk S)
      → (sent f false reply w t).1 ≡ brought f w t
  unfolding sent brought
  sent-brought unsent reply w t = refl
  sent-brought overdue reply w t = refl
  sent-brought in_time reply w t = refl

  -- A request for an inhibitor that the daemon answers with `r`.
  unfoldable pub inhibited : Fate → Reply → World S → Talk S → Ending × Talk S
  unfolding say
  inhibited unsent r w t = (leaves, say no_reply (say unable_to_send t))
  inhibited overdue r w t = (leaves, say no_reply (say unable_to_send (record t { world = w })))
  inhibited in_time unanswered w t =
      (leaves, say no_reply (say unable_to_send (record t { world = w })))
  inhibited in_time r w t = (keeps_inhibitor, record t { world = w })

fate_known : (f : Fate) → is_in_time f ≡ true → f ≡ in_time
unfolding is_in_time
fate_known unsent e = absurd (cc)
fate_known overdue e = absurd (cc)
fate_known in_time e = refl

module _ {S : Type 0} where
  got :
      (f : Fate) (r : Reply) (t : Talk S)
      → f ≡ in_time
      → sent f true (some r) t.world t ≡ (some r, t)
  unfolding sent
  got f r t e = rw e refl

  missed :
      (f : Fate) (r : Reply) (t : Talk S)
      → is_in_time f ≡ false
      → sent f true (some r) t.world t ≡ (none, say unable_to_send t)
  unfolding sent is_in_time
  missed unsent r t e = refl
  missed overdue r t e = refl
  missed in_time r t e = absurd (cc)

  cookie_known :
      (f : Fate) (r : Reply) (w : World S) (t : Talk S)
      → read_cookie (sent f true (reply_of (handled r)) w t) ≡ inhibited f r w t
  unfolding sent inhibited read_cookie reply_of
  cookie_known unsent r w t = refl
  cookie_known overdue r w t = refl
  cookie_known in_time Reply.confirmed w t = refl
  cookie_known in_time Reply.type_mismatch w t = refl
  cookie_known in_time Reply.introspected w t = refl
  cookie_known in_time unanswered w t = refl
  cookie_known in_time (Reply.syntax_error m) w t = refl
  cookie_known in_time (Reply.cookie_reply n) w t = refl
  cookie_known in_time (Reply.seconds n) w t = refl
  cookie_known in_time (Reply.entries es) w t = refl
  cookie_known in_time (Reply.boolean b) w t = refl

-- The questions of the command.
abbrev pub get_active : Caller → Message
get_active c = message c "GetActive" []

abbrev pub get_inhibitors : Caller → Message
get_inhibitors c = message c "GetInhibitors" []

abbrev pub get_active_time : Caller → Message
get_active_time c = message c "GetActiveTime" []

module _ {S : Type 0} (B : Bus) (H : Handlers S) where
  -- The part for "query" after both replies.
  unfoldable pub said_state : Talk S → Talk S
  unfolding say
  said_state t =
      say (inhibitors (get_ref_entries inhibit t.world.listener))
        (say (state t.world.listener.active) t)

  pub query_in_time :
      (c : Caller) (t : Talk S)
      → is_in_time (B (get_active c)) ≡ true
      → is_in_time (B (get_inhibitors c)) ≡ true
      → query B H c t ≡ (true, said_state t)
  unfolding query said_state read_active read_inhibitors screensaver_send_message
  query_in_time c t e e' =
      let on = t.world.listener.active in
      let names = get_ref_entries inhibit t.world.listener in
      ap (read_active B H c) (got (B (get_active c)) (boolean on) t (fate_known _ e))
      ∙ ap read_inhibitors
          (got (B (get_inhibitors c)) (entries names) (say (state on) t) (fate_known _ e'))

  pub query_missed :
      (c : Caller) (t : Talk S)
      → (is_in_time (B (get_active c)) && is_in_time (B (get_inhibitors c))) ≡ false
      → ((query B H c t).0 ≡ false) × ((query B H c t).1.world ≡ t.world)
  unfolding query read_active read_inhibitors screensaver_send_message say
  query_missed c t h =
      let on = t.world.listener.active in
      let names = get_ref_entries inhibit t.world.listener in
      let R = λ (r : Bool × Talk S). (r.0 ≡ false) × (r.1.world ≡ t.world) in
      elim (Bool-cases (is_in_time (B (get_active c)))) [
        | inr e ↦
            subst (λ r. R (read_active B H c r)) (sym (missed (B (get_active c)) (boolean on) t e))
              (refl, refl)
        | inl e ↦
            subst (λ r. R (read_active B H c r))
              (sym (got (B (get_active c)) (boolean on) t (fate_known _ e)))
              (subst (λ r. R (read_inhibitors r))
                (sym
                  (missed (B (get_inhibitors c)) (entries names) (say (state on) t) (ground arith)))
                (refl, refl))
      ]

  -- The part for "time" after its reply.
  unfoldable pub said_time : Talk S → Talk S
  unfolding say
  said_time t = say (active_for (active_time (H.activator.time t.world.rest) t.world.listener)) t

  pub time_in_time :
      (c : Caller) (t : Talk S)
      → is_in_time (B (get_active_time c)) ≡ true
      → time B H c t ≡ (true, said_time t)
  unfolding time said_time read_time screensaver_send_message
  time_in_time c t e =
      let n = active_time (H.activator.time t.world.rest) t.world.listener in
      ap read_time (got (B (get_active_time c)) (seconds n) t (fate_known _ e))

  pub time_missed :
      (c : Caller) (t : Talk S)
      → is_in_time (B (get_active_time c)) ≡ false
      → ((time B H c t).0 ≡ false) × ((time B H c t).1.world ≡ t.world)
  unfolding time read_time screensaver_send_message say
  time_missed c t e =
      let n = active_time (H.activator.time t.world.rest) t.world.listener in
      subst
        (λ (r : Option Reply × Talk S).
          ((read_time r).0 ≡ false) × ((read_time r).1.world ≡ t.world))
        (sym (missed (B (get_active_time c)) (seconds n) t e)) (refl, refl)

  pub tell_lock :
      (b : Bool) (c : Caller) (t : Talk S)
      → tell B H b (message c "Lock" []) t
        ≡ (if b then brought (B (message c "Lock" [])) (H.lock t.world) t else t)
  unfolding tell message
  tell_lock true c t = sent-brought _ _ _ t
  tell_lock false c t = refl

  pub inhibit_known :
      (c : Caller) (o : Options) (t : Talk S)
      → ask_inhibit B H c o t
        ≡ inhibited
            (B (inhibit_message c o))
            (add_entry_call H inhibit (inhibit_message c o) t.world).0
            (add_entry_call H inhibit (inhibit_message c o) t.world).1
            t
  unfolding ask_inhibit inhibit_message screensaver_send_message
  inhibit_known c o t =
      cookie_known (B (inhibit_message c o))
        (add_entry_call H inhibit (inhibit_message c o) t.world).0
        (add_entry_call H inhibit (inhibit_message c o) t.world).1 t

  pub tell_cycle :
      (b : Bool) (c : Caller) (t : Talk S)
      → tell B H b (message c "Cycle" []) t
        ≡ (if b then brought (B (message c "Cycle" [])) (H.cycle t.world) t else t)
  unfolding tell message
  tell_cycle true c t = sent-brought _ _ _ t
  tell_cycle false c t = refl

  pub tell_poke :
      (b : Bool) (c : Caller) (t : Talk S)
      → tell B H b (message c "SimulateUserActivity" []) t ≡ (
          if b
          then brought
              (B (message c "SimulateUserActivity" []))
              (H.simulate_user_activity t.world)
              t
          else t)
  unfolding tell message
  tell_poke true c t = sent-brought _ _ _ t
  tell_poke false c t = refl

  pub tell_active :
      (b on : Bool) (c : Caller) (t : Talk S)
      → tell B H b (message c "SetActive" (bool_arg on ∷ [])) t ≡ (
          if b
          then brought
              (B (message c "SetActive" (bool_arg on ∷ [])))
              (activate_saver H.activator on t.world).1
              t
          else t)
  unfolding tell message
  tell_active true on c t = sent-brought _ _ _ t
  tell_active false on c t = refl
