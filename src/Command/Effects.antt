-- ===== src/Command/Effects.antt =====
-- What the command of src/xfce4-screensaver-command.c does to the daemon and says of it, whatever the
-- bus does with its messages.
use xfce4_screensaver.Base.{
  ◌≡◌, Bool, true, false, ◌&&◌, not, ◌⊎◌, inl, inr, [], ◌∷◌, if◌then◌else◌, refl, ap, ◌∙◌, if_elim,
  Bool-cases, arith, sym,
}
use mathlib.Core.Path.{subst}
use xfce4_screensaver.ListenerDbus.{World, Handlers, inhibit}
use xfce4_screensaver.ListenerDbus.Activation.{activate_saver}
use xfce4_screensaver.ListenerDbus.Messages.{Message, bool_arg, add_entry_call}
use xfce4_screensaver.Command.{
  Options, Caller, Ending, leaves, crashes, Bus, Talk, message, inhibit_message, tell, query, time,
  ask_inhibit, request, after_time, after_query, do_command,
}
use xfce4_screensaver.Command.Replies.{
  is_in_time, brought, inhibited, get_active, get_inhibitors, get_active_time, said_state,
  said_time, query_in_time, query_missed, time_in_time, time_missed, tell_lock, tell_cycle,
  tell_poke, tell_active, inhibit_known,
}

otherwise :
    {A : Type 0} (R : A → Type 0) (b : Bool) (x y : A) → b ≡ false → R y → R (if b then x else y)
otherwise R true x y e h = absurd (cc)
otherwise R false x y e h = h

module _ {S : Type 0} (B : Bus) (H : Handlers S) where
  -- A request that makes the daemon `w`, where the options ask for it.
  unfoldable pub asked : Bool → Message → World S → Talk S → Talk S
  unfolding brought
  asked b m w t = if b then brought (B m) w t else t

  -- What the options but "inhibit" ask the daemon for, in the order of the source.
  unfoldable pub calls : Caller → Options → Talk S → Talk S
  unfolding asked
  calls c o t =
      let t1 = asked o.do_lock (message c "Lock" []) (H.lock t.world) t in
      let t2 = asked o.do_cycle (message c "Cycle" []) (H.cycle t1.world) t1 in
      let poke = message c "SimulateUserActivity" [] in
      let t3 = asked o.do_poke poke (H.simulate_user_activity t2.world) t2 in
      let on = message c "SetActive" (bool_arg true ∷ []) in
      let t4 = asked o.do_activate on (activate_saver H.activator true t3.world).1 t3 in
      let off = message c "SetActive" (bool_arg false ∷ []) in
      asked o.do_deactivate off (activate_saver H.activator false t4.world).1 t4

  -- What follows for "inhibit".
  unfoldable pub ended : Caller → Options → Talk S → Ending × Talk S
  unfolding inhibited
  ended c o t =
      if o.do_inhibit
      then inhibited (B (inhibit_message c o))
          (add_entry_call H inhibit (inhibit_message c o) t.world).0
          (add_entry_call H inhibit (inhibit_message c o) t.world).1 t
      else (leaves, t)

  -- What is said of the daemon where the options ask for it.
  unfoldable pub reported : Options → Talk S → Talk S
  unfolding said_state said_time
  reported o t =
      let t1 = if o.do_query then said_state B H t else t in
      if o.do_time then said_time B H t1 else t1

  -- A reply is missing that the command tests for, or one that it does not test for.
  unfoldable pub misses_state : Caller → Options → Bool
  unfolding is_in_time
  misses_state c o =
      o.do_query && not (is_in_time (B (get_active c)) && is_in_time (B (get_inhibitors c)))

  unfoldable pub misses_time : Caller → Options → Bool
  unfolding is_in_time
  misses_time c o = o.do_time && not (is_in_time (B (get_active_time c)))

  told : Caller → Options → Talk S → Talk S
  told c o t =
      let t1 = tell B H o.do_lock (message c "Lock" []) t in
      let t2 = tell B H o.do_cycle (message c "Cycle" []) t1 in
      let t3 = tell B H o.do_poke (message c "SimulateUserActivity" []) t2 in
      let t4 = tell B H o.do_activate (message c "SetActive" (bool_arg true ∷ [])) t3 in
      tell B H o.do_deactivate (message c "SetActive" (bool_arg false ∷ [])) t4

  told_known : (c : Caller) (o : Options) (t : Talk S) → told c o t ≡ calls c o t
  unfolding told calls asked
  told_known c o t =
      let t1 = tell B H o.do_lock (message c "Lock" []) t in
      let t2 = tell B H o.do_cycle (message c "Cycle" []) t1 in
      let poke = message c "SimulateUserActivity" [] in
      let t3 = tell B H o.do_poke poke t2 in
      let on = message c "SetActive" (bool_arg true ∷ []) in
      let t4 = tell B H o.do_activate on t3 in
      let off = message c "SetActive" (bool_arg false ∷ []) in
      let e1 = tell_lock B H o.do_lock c t in
      let e2 =
        tell_cycle B H o.do_cycle c t1
        ∙ ap (λ (x : Talk S). asked o.do_cycle (message c "Cycle" []) (H.cycle x.world) x) e1 in
      let e3 =
        tell_poke B H o.do_poke c t2
        ∙ ap (λ (x : Talk S). asked o.do_poke poke (H.simulate_user_activity x.world) x) e2 in
      let e4 =
        tell_active B H o.do_activate true c t3
        ∙ ap (λ (x : Talk S). asked o.do_activate on (activate_saver H.activator true x.world).1 x)
            e3 in
      tell_active B H o.do_deactivate false c t4
      ∙ ap
          (λ (x : Talk S). asked o.do_deactivate off (activate_saver H.activator false x.world).1 x)
          e4

  concluded_known :
      (b : Bool) (c : Caller) (o : Options) (t : Talk S)
      → (if b then ask_inhibit B H c o t else (leaves, t)) ≡ (
          if b
          then inhibited
              (B (inhibit_message c o))
              (add_entry_call H inhibit (inhibit_message c o) t.world).0
              (add_entry_call H inhibit (inhibit_message c o) t.world).1
              t
          else (leaves, t))
  concluded_known true c o t = inhibit_known B H c o t
  concluded_known false c o t = refl

  request_known :
      (c : Caller) (o : Options) (t : Talk S) → request B H c o t ≡ ended c o (calls c o t)
  unfolding request ended told
  request_known c o t =
      concluded_known o.do_inhibit c o (told c o t) ∙ ap (ended c o) (told_known c o t)

  -- How the command ends: a tested reply is missing, or another one, or none.
  abbrev pub Effects : Caller → Options → Talk S → Ending × Talk S → Type 0
  Effects c o t r =
      ((misses_state c o ≡ true) × (r.0 ≡ leaves) × (r.1.world ≡ t.world))
      ⊎ (((misses_state c o ≡ false)
            × (misses_time c o ≡ true)
            × (r.0 ≡ crashes)
            × (r.1.world ≡ t.world))
          ⊎ ((misses_state c o ≡ false)
              × (misses_time c o ≡ false)
              × (r ≡ ended c o (calls c o (reported o t)))))

  -- The same of the part for "time" and those after it, where `b` is whether the time is asked for.
  abbrev TimeEffects : Bool → Caller → Options → Talk S → Ending × Talk S → Type 0
  TimeEffects b c o t r =
      ((b && not (is_in_time (B (get_active_time c))) ≡ true)
        × (r.0 ≡ crashes)
        × (r.1.world ≡ t.world))
      ⊎ ((b && not (is_in_time (B (get_active_time c))) ≡ false)
          × (r ≡ ended c o (calls c o (if b then said_time B H t else t))))

  after_time-known :
      (b : Bool) (c : Caller) (o : Options) (t : Talk S)
      → TimeEffects b c o t (after_time B H c o (if b then time B H c t else (true, t)))
  unfolding after_time
  after_time-known false c o t = inr (refl, request_known c o t)
  after_time-known true c o t = elim (Bool-cases (is_in_time (B (get_active_time c)))) [
    | inl e ↦ inr (
      ap not e,
      ap (after_time B H c o) (time_in_time B H c t e) ∙ request_known c o (said_time B H t),
    )
    | inr e ↦
        let (none_read, same) = time_missed B H c t e in
        let (has_read, t1) = time B H c t in
        let (crash, kept) =
          otherwise (λ (r : Ending × Talk S). (r.0 ≡ crashes) × (r.1.world ≡ t.world)) has_read
            (request B H c o t1) (crashes, t1) none_read (refl, same) in
        inl (ap not e, crash, kept)
  ]

  said_state-kept : (b : Bool) (t : Talk S) → (if b then said_state B H t else t).world ≡ t.world
  unfolding said_state
  said_state-kept true t = refl
  said_state-kept false t = refl

  -- The same of the part for "query" and those after it, where `b` is whether it is asked for.
  abbrev QueryEffects : Bool → Caller → Options → Talk S → Ending × Talk S → Type 0
  QueryEffects b c o t r =
      ((b && not (is_in_time (B (get_active c)) && is_in_time (B (get_inhibitors c))) ≡ true)
        × (r.0 ≡ leaves)
        × (r.1.world ≡ t.world))
      ⊎ ((b && not (is_in_time (B (get_active c)) && is_in_time (B (get_inhibitors c))) ≡ false)
          × TimeEffects o.do_time c o (if b then said_state B H t else t) r)

  after_query-known :
      (b : Bool) (c : Caller) (o : Options) (t : Talk S)
      → QueryEffects b c o t (after_query B H c o (if b then query B H c t else (true, t)))
  unfolding after_query
  after_query-known false c o t = inr (refl, after_time-known o.do_time c o t)
  after_query-known true c o t =
      let heard = is_in_time (B (get_active c)) && is_in_time (B (get_inhibitors c)) in
      elim (Bool-cases heard) [
        | inl e ↦
            let known = query_in_time B H c t (ground arith) (ground arith) in
            inr (
              ap not e,
              subst (λ r. TimeEffects o.do_time c o (said_state B H t) (after_query B H c o r))
                  (sym known) (after_time-known o.do_time c o (said_state B H t)),
            )
        | inr e ↦
            let (stops, same) = query_missed B H c t e in
            let (goes_on, t1) = query B H c t in
            let (left, kept) =
              otherwise (λ (r : Ending × Talk S). (r.0 ≡ leaves) × (r.1.world ≡ t.world)) goes_on
                (after_time B H c o (if o.do_time then time B H c t1 else (true, t1))) (leaves, t1)
                stops (refl, same) in
            inl (ap not e, left, kept)
      ]

  -- When the service runs and the command is not told to make it quit, then one of three things
  -- happens, whatever the bus does with each message. A reply to the option "query" is missing: the
  -- command ends, and the daemon is as before. Otherwise, the reply to the option "time" is missing:
  -- the command reads it all the same and crashes, and the daemon is as before. Otherwise the command
  -- prints what it was asked for, as it was before; then it makes the requests that the options ask
  -- for, in the order lock, cycle, poke, activate, deactivate and inhibit, and the daemon does, as if
  -- its handlers were called, those that come to it, with a warning for each that the bus did not
  -- take; and for "inhibit" the command keeps its inhibitor only if the reply came in time, and else
  -- complains and ends.
  pub do_command-Effects :
      (c : Caller) (o : Options) (t : Talk S)
      → o.do_quit ≡ false
      → Effects c o t (do_command B H true c o t)
  unfolding do_command misses_state misses_time reported
  do_command-Effects c o t stays =
      let known = after_query-known o.do_query c o t in
      let outcome : Effects c o t
          (after_query B H c o (if o.do_query then query B H c t else (true, t))) =
        elim known [
          | inl left ↦ inl left
          | inr (heard, inl (missed, crash, kept)) ↦
              inr (inl (heard, missed, crash, kept ∙ said_state-kept o.do_query t))
          | inr (heard, inr (read, goes)) ↦ inr (inr (heard, read, goes))
        ] in
      if_elim (Effects c o t) o.do_quit (λ bad. absurd (cc)) (λ _. outcome)
