-- ===== src/Grab/Laws.antt =====
-- What the functions of src/gs-grab.c guarantee to the manager.
use xfce4_screensaver.Base.{
  ℕ, zero, suc, ◌≡◌, ◌<◌, ◌≤◌, Bool, true, false, Option, none, some, length, arith, refl, if_elim,
  Bool-cases, inl, inr, ◌+◌, if◌then◌else◌,
}
use xfce4_screensaver.Grab.{Holder, root_window, overlay_window, saver_window, GrabLaws}
use xfce4_screensaver.Grab.Seat.{
  Grab, Status, resume, release_old, success, failed, is_success, get, release, reset, move,
  same_holder, move_until, move_to_window, tries, cycles, grab_window, grab_root, ops,
  is_already_grabbed,
}

-- An attempt that succeeds leaves the window with the grab; one that fails has taken an answer.
get_result :
    (w : Holder) (no_pointer : Bool) (g : Grab)
    → (is_success (get w no_pointer g).0 ≡ true → (get w no_pointer g).1.grab_window ≡ some w)
      × (is_success (get w no_pointer g).0 ≡ false
          → length (get w no_pointer g).1.answers < length g.answers)
      × (length (get w no_pointer g).1.answers ≤ length g.answers)
unfolding get is_success
get_result w no_pointer g = ground arith

same_holder_eq : (o : Option Holder) (w : Holder) → same_holder o w ≡ true → o ≡ some w
unfolding same_holder
same_holder_eq (some root_window) root_window e = refl
same_holder_eq (some overlay_window) overlay_window e = refl
same_holder_eq (some (saver_window i)) (saver_window j) e = ground arith
same_holder_eq none w e = ground arith
same_holder_eq _ _ e = ground arith

answers-release_old : (o : Option Holder) (g : Grab) → (release_old o g).answers ≡ g.answers
unfolding release_old release
answers-release_old none g = refl
answers-release_old (some h) g = refl

answers-resume :
    (o : Option Holder) (no_pointer : Bool) (g : Grab)
    → length (resume o no_pointer g).answers ≤ length g.answers
unfolding resume
answers-resume none no_pointer g = omega arith
answers-resume (some old) no_pointer g = (get_result old no_pointer g).2

-- A move that succeeds gives the window the grab, and one that fails has taken an answer.
move_result :
    (w : Holder) (no_pointer : Bool) (g : Grab)
    → ((move w no_pointer g).0 ≡ true → (move w no_pointer g).1.grab_window ≡ some w)
      × ((move w no_pointer g).0 ≡ false
          → length (move w no_pointer g).1.answers < length g.answers)
unfolding move
move_result w no_pointer g =
    let start = release_old g.grab_window g in
    let begun = answers-release_old g.grab_window g in
    let first = get w no_pointer start in
    let (f1, f2, f3) = get_result w no_pointer start in
    let (s1, s2, s3) = get_result w no_pointer first.1 in
    let second = if is_success first.0 then first else get w no_pointer first.1 in
    let same = same_holder_eq g.grab_window w in
    let left = answers-resume g.grab_window no_pointer second.1 in ground arith

move_until_holds :
    (fuel : ℕ) (w : Holder) (no_pointer : Bool) (g : Grab)
    → length g.answers < fuel
    → (move_until fuel w no_pointer g).grab_window ≡ some w
unfolding move_until
move_until_holds zero w no_pointer g enough = absurd (omega arith)
move_until_holds (suc fuel) w no_pointer g enough =
    let (done, taken) = move_result w no_pointer g in
    let rest = move_until_holds fuel w no_pointer (move w no_pointer g).1 in
    if_elim (λ (r : Grab). r.grab_window ≡ some w) (move w no_pointer g).0 done
      (λ e. let less = taken e in rest (omega (arith, less, enough)))

-- A row of attempts ends with the grab, or each has taken an answer.
tries_result :
    (n : ℕ) (s : Status) (w : Holder) (no_pointer : Bool) (g : Grab)
    → is_success s ≡ false
    → (is_success (tries n s w no_pointer g).0 ≡ true
        → (tries n s w no_pointer g).1.grab_window ≡ some w)
      × (is_success (tries n s w no_pointer g).0 ≡ false
          → length (tries n s w no_pointer g).1.answers + n ≤ length g.answers)
unfolding tries
tries_result zero s w no_pointer g bad = ground arith
tries_result (suc n) s w no_pointer g bad =
    let attempt = get w no_pointer g in
    let (a1, a2, a3) = get_result w no_pointer g in
    let rest = tries_result n attempt.0 w no_pointer attempt.1 in
    elim (Bool-cases (is_success attempt.0)) [
      | inl granted ↦ ground arith
      | inr refused ↦ let (r1, r2) = rest refused in ground arith
    ]

-- What the aggressive cycle ends with: the grab, or a status that is not "already grabbed".
abbrev IsSettled : Holder → Status × Grab → Type 0
IsSettled w r =
    (is_success r.0 ≡ true → r.1.grab_window ≡ some w) × (is_already_grabbed r.0 ≡ false)

waiting_status : (s : Status) → is_already_grabbed s ≡ true → is_success s ≡ false
unfolding is_already_grabbed is_success
waiting_status success e = ground arith
waiting_status _ e = refl

settled_status : (s : Status) → is_success s ≡ true → is_already_grabbed s ≡ false
unfolding is_already_grabbed is_success
settled_status success e = refl
settled_status _ e = ground arith

cycles-IsSettled :
    (fuel : ℕ) (r : Status × Grab) (w : Holder) (no_pointer : Bool)
    → (is_success r.0 ≡ true → r.1.grab_window ≡ some w)
    → (is_success r.0 ≡ false → length r.1.answers < fuel)
    → IsSettled w (cycles fuel r w no_pointer)
unfolding cycles
cycles-IsSettled zero r w no_pointer holds enough = elim (Bool-cases (is_success r.0)) [
  | inl granted ↦ (holds, settled_status r.0 granted)
  | inr refused ↦ let less = enough refused in absurd (omega arith)
]
cycles-IsSettled (suc fuel) r w no_pointer holds enough =
    let next = tries 12 r.0 w no_pointer r.1 in
    if_elim (IsSettled w) (is_already_grabbed r.0)
      (λ waiting.
        let refused = waiting_status r.0 waiting in
        let less = enough refused in
        let (done, taken) = tries_result 12 r.0 w no_pointer r.1 refused in
        cycles-IsSettled fuel next w no_pointer done
          (λ again. let fewer = taken again in omega (arith, less, fewer)))
      (λ other. (holds, other))

grab_window_result :
    (w : Holder) (no_pointer : Bool) (g : Grab)
    → (grab_window w no_pointer g).0 ≡ true
    → (grab_window w no_pointer g).1.grab_window ≡ some w
unfolding grab_window
grab_window_result w no_pointer g =
    let (done, taken) = tries_result 12 failed w no_pointer g refl in
    (cycles-IsSettled (suc (length g.answers)) (tries 12 failed w no_pointer g) w no_pointer done
      (λ again. let fewer = taken again in omega (arith, fewer))).0

-- The grab of src/gs-grab.c keeps the laws that the manager relies on: a grab of the root that
-- succeeds and every move give the window asked for the grab, and a release or a reset leaves none.
pub ops-GrabLaws : GrabLaws ops
unfolding grab_root move_to_window release reset
ops-GrabLaws = record {
  holder-grab_root = λ no_pointer g e. grab_window_result root_window no_pointer g e;
  holder-move_to_window =
      λ h no_pointer g. move_until_holds (suc (length g.answers)) h no_pointer g (omega arith);
  holder-release = λ g. refl;
  holder-reset = λ g. refl;
}
