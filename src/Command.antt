-- ===== src/Command.antt =====
-- src/xfce4-screensaver-command.c: the command that asks the daemon over the session bus. The bus is a
-- parameter: it may bring a message to the listener of src/gs-listener-dbus.c or not, and its reply
-- back in time or not. A failure of the flush, which only gives a warning, is left out.
pub mod Replies
pub mod Effects
use xfce4_screensaver.Base.{
  ℕ, Bool, true, false, not, Option, none, some, List, [], ◌∷◌, ◌++◌, String, if◌then◌else◌,
}
use xfce4_screensaver.ListenerDbus.{World, Handlers}
use xfce4_screensaver.ListenerDbus.Messages.{
  Arg, string_arg, bool_arg, Message, Reply, confirmed, entries, boolean, seconds, unanswered,
  Result, handled, not_yet_handled, aborted, handle_session_message,
}

-- The options of the command line.
pub record Options : Type 0 where
  pub do_quit : Bool
  pub do_lock : Bool
  pub do_cycle : Bool
  pub do_activate : Bool
  pub do_deactivate : Bool
  pub do_version : Bool
  pub do_poke : Bool
  pub do_inhibit : Bool
  pub do_query : Bool
  pub do_time : Bool
  pub inhibit_reason : Option String
  pub inhibit_application : Option String

-- What comes with the command's messages from outside: the name of its connection, and for an
-- inhibitor the numbers drawn, the answer of logind and the time.
pub record Caller : Type 0 where
  pub name : String
  pub draws : List ℕ
  pub answer : Option ℕ
  pub now : String

-- What the command prints, its warnings included.
pub data Printed : Type 0 where
  state : Bool → Printed
  inhibitors : List String → Printed
  active_for : ℕ → Printed
  no_reply not_running unable_to_send : Printed

-- How do_command ends: the loop is left, or the command keeps its inhibitor, or it reads a reply that
-- it did not get.
pub data Ending : Type 0 where
  leaves keeps_inhibitor crashes : Ending

-- What becomes of a message: the bus does not take it, or it comes to the daemon, and a reply comes
-- back too late or in time.
pub data Fate : Type 0 where
  unsent overdue in_time : Fate

abbrev pub Bus : Type 0
Bus = Message → Fate

-- What the command has printed, in order, and the daemon.
pub record Talk (S : Type 0) : Type 0 where
  pub lines : List Printed
  pub world : World S

unfoldable pub say : {S : Type 0} → Printed → Talk S → Talk S
say line t = record t { lines = t.lines ++ line ∷ [] }

-- The message of screensaver_send_message.
unfoldable pub message : Caller → String → List Arg → Message
message c name body = record {
  is_signal = false;
  path = some "/org/xfce/ScreenSaver";
  interface = some "org.xfce.ScreenSaver";
  member = name;
  sender = some c.name;
  args = body;
  draws = c.draws;
  answer = c.answer;
  now = c.now;
}

-- The reply that the daemon gives, if it gives one.
unfoldable pub reply_of : Result → Option Reply
reply_of (handled unanswered) = none
reply_of (handled reply) = some reply
reply_of not_yet_handled = none
reply_of aborted = none

-- What a call of the bus leaves, for a daemon that gives `reply` and is then `w`: the reply that the
-- command gets, where it expects one, and a warning where the call fails.
unfoldable pub sent :
    {S : Type 0} → Fate → Bool → Option Reply → World S → Talk S → Option Reply × Talk S
unfolding say
sent unsent expects reply w t = (none, say unable_to_send t)
sent overdue true reply w t = (none, say unable_to_send (record t { world = w }))
sent overdue false reply w t = (none, record t { world = w })
sent in_time true none w t = (none, say unable_to_send (record t { world = w }))
sent in_time true (some reply) w t = (some reply, record t { world = w })
sent in_time false reply w t = (none, record t { world = w })

unfoldable pub inhibit_text : Option String → String
inhibit_text none = "Unknown"
inhibit_text (some text) = text

-- The message of the option "inhibit".
unfoldable pub inhibit_message : Caller → Options → Message
unfolding message inhibit_text
inhibit_message c o = message c "Inhibit" (
    string_arg (inhibit_text o.inhibit_application)
    ∷ string_arg (inhibit_text o.inhibit_reason)
    ∷ [])

-- What do_command does with its replies. With the one for "query" it may go on; whether there is one
-- for "time" to read is not tested by the source.
module _ {S : Type 0} where
  unfoldable pub read_inhibitors : Option Reply × Talk S → Bool × Talk S
  unfolding say
  read_inhibitors (reply, t) = elim reply [
    | some (entries names) ↦ (true, say (inhibitors names) t)
    | _ ↦ (false, say no_reply t)
  ]

  unfoldable pub read_time : Option Reply × Talk S → Bool × Talk S
  unfolding say
  read_time (reply, t) = elim reply [
    | some (seconds n) ↦ (true, say (active_for n) t)
    | _ ↦ (false, t)
  ]

  unfoldable pub read_cookie : Option Reply × Talk S → Ending × Talk S
  unfolding say
  read_cookie (none, t) = (leaves, say no_reply t)
  read_cookie (some _, t) = (keeps_inhibitor, t)

module _ {S : Type 0} (B : Bus) (H : Handlers S) where
  unfoldable pub screensaver_send_message : Message → Bool → Talk S → Option Reply × Talk S
  unfolding sent reply_of handle_session_message
  screensaver_send_message m expects t =
      let (result, w) = handle_session_message H m t.world in
      sent (B m) expects (reply_of result) w t

  -- A message that expects no reply.
  unfoldable pub tell : Bool → Message → Talk S → Talk S
  unfolding screensaver_send_message
  tell asked m t = if asked then (screensaver_send_message m false t).1 else t

  -- The part of do_command for the option "query".
  unfoldable pub read_active : Caller → Option Reply × Talk S → Bool × Talk S
  unfolding say message read_inhibitors screensaver_send_message
  read_active c (reply, t) = elim reply [
    | some (boolean on) ↦
        read_inhibitors
          (screensaver_send_message (message c "GetInhibitors" []) true (say (state on) t))
    | _ ↦ (false, say no_reply t)
  ]

  unfoldable pub query : Caller → Talk S → Bool × Talk S
  unfolding screensaver_send_message message read_active
  query c t = read_active c (screensaver_send_message (message c "GetActive" []) true t)

  -- The part for the option "time".
  unfoldable pub time : Caller → Talk S → Bool × Talk S
  unfolding screensaver_send_message message read_time
  time c t = read_time (screensaver_send_message (message c "GetActiveTime" []) true t)

  -- The part for the option "inhibit".
  unfoldable pub ask_inhibit : Caller → Options → Talk S → Ending × Talk S
  unfolding screensaver_send_message inhibit_message read_cookie
  ask_inhibit c o t = read_cookie (screensaver_send_message (inhibit_message c o) true t)

  -- The parts of do_command after "time".
  unfoldable pub request : Caller → Options → Talk S → Ending × Talk S
  unfolding tell message ask_inhibit
  request c o t =
      let t1 = tell o.do_lock (message c "Lock" []) t in
      let t2 = tell o.do_cycle (message c "Cycle" []) t1 in
      let t3 = tell o.do_poke (message c "SimulateUserActivity" []) t2 in
      let t4 = tell o.do_activate (message c "SetActive" (bool_arg true ∷ [])) t3 in
      let t5 = tell o.do_deactivate (message c "SetActive" (bool_arg false ∷ [])) t4 in
      if o.do_inhibit then ask_inhibit c o t5 else (leaves, t5)

  unfoldable pub after_time : Caller → Options → Bool × Talk S → Ending × Talk S
  unfolding request
  after_time c o (has_read, t) = if has_read then request c o t else (crashes, t)

  -- The part for "time" and those after it; a missing reply to "query" has ended the command.
  unfoldable pub after_query : Caller → Options → Bool × Talk S → Ending × Talk S
  unfolding time after_time
  after_query c o (goes_on, t) =
      if goes_on then after_time c o (if o.do_time then time c t else (true, t)) else (leaves, t)

  -- do_command; `running` is whether the service has an owner.
  unfoldable pub do_command : Bool → Caller → Options → Talk S → Ending × Talk S
  unfolding screensaver_send_message message say query after_query
  do_command running c o t =
      if not running
      then (leaves, say not_running t)
      else if o.do_quit
      then (leaves, (screensaver_send_message (message c "Quit" []) false t).1)
      else after_query c o (if o.do_query then query c t else (true, t))
