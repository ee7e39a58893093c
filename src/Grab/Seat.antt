-- ===== src/Grab/Seat.antt =====
-- src/gs-grab.c over the answers of an X server. The server answers each attempt to grab the seat in
-- turn; after the answers listed, every attempt succeeds. The pointer counts as grabbed from an
-- attempt for all devices that succeeds until the seat is released. Delays, the focus and the
-- cursor are not modelled.
use xfce4_screensaver.Base.{
  ℕ, zero, suc, Bool, true, false, ◌&&◌, not, Option, none, some, List, [], ◌∷◌, length,
  if◌then◌else◌, ◌==◌,
}
use xfce4_screensaver.Grab.{Holder, root_window, overlay_window, saver_window, GrabOps}

-- GdkGrabStatus.
pub data Status : Type 0 where
  success already_grabbed invalid_time not_viewable frozen failed : Status

unfoldable pub is_success : Status → Bool
is_success success = true
is_success _ = false

unfoldable pub is_already_grabbed : Status → Bool
is_already_grabbed already_grabbed = true
is_already_grabbed _ = false

-- GSGrabPrivate, with the server.
pub record Grab : Type 0 where
  pub grab_window : Option Holder
  pub no_pointer_grab : Bool
  pub pointer_grabbed : Bool
  pub answers : List Status

-- gdk_seat_grab.
seat_answer : Bool → Bool → Status → Bool
seat_answer no_pointer before s = if is_success s && not no_pointer then true else before

unfoldable pub seat_grab : Bool → Grab → Status × Grab
unfolding seat_answer is_success
seat_grab no_pointer g = elim g.answers [
  | [] ↦ (success, record g { pointer_grabbed = seat_answer no_pointer g.pointer_grabbed success })
  | s ∷ rest ↦
      (s, record g { pointer_grabbed = seat_answer no_pointer g.pointer_grabbed s; answers = rest })
]

unfoldable pub reset : Grab → Grab
reset g = record g { grab_window = none }

unfoldable pub release : Grab → Grab
unfolding reset
release g = reset (record g { pointer_grabbed = false })

granted : Holder → Bool → Status × Grab → Status × Grab
granted w no_pointer (success, g) =
    (success, record g { grab_window = some w; no_pointer_grab = no_pointer })
granted w no_pointer (s, g) = (s, g)

-- gs_grab_get.
unfoldable pub get : Holder → Bool → Grab → Status × Grab
unfolding granted is_success seat_grab release
get w no_pointer g =
    let first = seat_grab no_pointer g in
    granted w no_pointer (
      if is_success first.0 && no_pointer && first.1.pointer_grabbed
      then seat_grab no_pointer (release first.1)
      else first)

unfoldable pub same_holder : Option Holder → Holder → Bool
same_holder (some root_window) root_window = true
same_holder (some overlay_window) overlay_window = true
same_holder (some (saver_window i)) (saver_window j) = i == j
same_holder _ _ = false

same_flag : Bool → Bool → Bool
same_flag true b = b
same_flag false b = not b

-- The grab that a failed move resumes.
unfoldable pub resume : Option Holder → Bool → Grab → Grab
resume none no_pointer g = g
resume (some old) no_pointer g = (get old no_pointer g).1

unfoldable pub release_old : Option Holder → Grab → Grab
release_old none g = g
release_old (some _) g = release g

-- gs_grab_move.
unfoldable pub move : Holder → Bool → Grab → Bool × Grab
unfolding same_holder same_flag resume release_old get is_success
move w no_pointer g =
    let first = get w no_pointer (release_old g.grab_window g) in
    let second = if is_success first.0 then first else get w no_pointer first.1 in
    if same_holder g.grab_window w && same_flag g.no_pointer_grab no_pointer
    then (true, g)
    else if is_success second.0
    then (true, second.1)
    else (false, resume g.grab_window no_pointer second.1)

-- gs_grab_move_to_window, which moves until it succeeds. An attempt that fails takes an answer.
unfoldable pub move_until : ℕ → Holder → Bool → Grab → Grab
unfolding move
move_until zero w no_pointer g = g
move_until (suc fuel) w no_pointer g =
    let attempt = move w no_pointer g in
    let rest = move_until fuel w no_pointer attempt.1 in if attempt.0 then attempt.1 else rest

unfoldable pub move_to_window : Holder → Bool → Grab → Grab
unfolding move_until
move_to_window w no_pointer g = move_until (suc (length g.answers)) w no_pointer g

-- The inner loop of gs_grab_grab_window: at most `n` attempts, and the last status.
unfoldable pub tries : ℕ → Status → Holder → Bool → Grab → Status × Grab
unfolding get is_success
tries zero s w no_pointer g = (s, g)
tries (suc n) s w no_pointer g =
    let attempt = get w no_pointer g in
    let rest = tries n attempt.0 w no_pointer attempt.1 in
    if is_success attempt.0 then attempt else rest

-- The aggressive cycle, while something else holds the grab.
unfoldable pub cycles : ℕ → Status × Grab → Holder → Bool → Status × Grab
unfolding tries is_already_grabbed
cycles zero r w no_pointer = r
cycles (suc fuel) r w no_pointer =
    let rest = cycles fuel (tries 12 r.0 w no_pointer r.1) w no_pointer in
    if is_already_grabbed r.0 then rest else r

unfoldable pub grab_window : Holder → Bool → Grab → Bool × Grab
unfolding cycles is_success
grab_window w no_pointer g =
    let r = cycles (suc (length g.answers)) (tries 12 failed w no_pointer g) w no_pointer in
    (is_success r.0, r.1)

unfoldable pub grab_root : Bool → Grab → Bool × Grab
unfolding grab_window
grab_root no_pointer g = grab_window root_window no_pointer g

abbrev pub ops : GrabOps Grab
ops = record {
  holder = λ g. g.grab_window;
  grab_root = grab_root;
  move_to_window = move_to_window;
  release = release;
  reset = reset;
}
