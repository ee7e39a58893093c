-- ===== src/AuthHelper/Balance.antt =====
-- The password helper: what its exit means, and whether SIGCHLD is let through again
-- (src/gs-auth-helper.c, src/subprocs.c).
use xfce4_screensaver.Base.{
  ℕ, zero, suc, ◌≡◌, Bool, true, false, Option, none, some, List, [], ◌∷◌, String, if_elim, refl,
  arith, ap, ◌≢◌, ◌⊎◌, inl, inr, Option-cases, Bool-cases, ◌==◌,
}
use Prim.Native.String.append
use Prim.Native.String.{len}
use text.Mathlib.TextBridge.{IsPrefix}
use text.Mathlib.TextEquality.{slice-prefix}
use text.Mathlib.TextPositions.{slice_all}
use xfce4_screensaver.Base.Int.{ℤ, pos, negsuc}
use xfce4_screensaver.Subprocs.{
  Mask, block_sigchld, unblock_sigchld, above, below, send_signal, is_zero,
}
use xfce4_screensaver.AuthHelper.{
  Waited, interrupted, wait_failed, signalled, exited, HelperCalls, HelperRun, wait_helper,
  waited_mask, passed_on, ext_run, gs_auth_verify_user,
}

pub below-above : (n : ℤ) → below (above n) ≡ n
unfolding below above
below-above (pos n) = refl
below-above (negsuc zero) = refl
below-above (negsuc (suc n)) = refl

-- A wait that is interrupted a number of times first.
unfoldable pub interruptions : ℕ → List Waited → List Waited
interruptions zero ws = ws
interruptions (suc n) ws = interrupted ∷ interruptions n ws

-- The wait ends well with a helper that exits with zero, after interruptions only.
wait_helper-true :
    (ws : List Waited)
    → wait_helper ws ≡ some true
    → (n : ℕ) × (rest : List Waited) × (ws ≡ interruptions n (exited 0 ∷ rest))
unfolding wait_helper interruptions
wait_helper-true [] e = absurd (cc)
wait_helper-true (interrupted ∷ ws) e =
    let (n, rest, same) = wait_helper-true ws e in
    (suc n, rest, ap (λ (r : List Waited). interrupted ∷ r) same)
wait_helper-true (wait_failed ∷ ws) e = absurd (cc)
wait_helper-true (signalled ∷ ws) e = absurd (cc)
wait_helper-true (exited zero ∷ ws) e = (0, ws, refl)
wait_helper-true (exited (suc n) ∷ ws) e = absurd (ground arith)

waited_mask-some :
    (o : Option Bool) (b : Bool) (m : Mask)
    → o ≡ some b
    → (waited_mask o (block_sigchld m)).count ≡ m.count
unfolding waited_mask block_sigchld unblock_sigchld
waited_mask-some none b m e = absurd (cc)
waited_mask-some (some c) b m e = below-above m.count

-- What the helper finds of a password: the whole, where the write took as many bytes, and otherwise a
-- beginning of it.
abbrev pub Received : HelperCalls → String → String → Type 0
Received calls password text =
    IsPrefix text password × ((text ≡ password) ⊎ (calls.written ≢ some (len password)))

nothing-IsPrefix : (s : String) → IsPrefix "" s
nothing-IsPrefix s = (s, append.nil s)

passed_on-Received :
    (calls : HelperCalls) (password : String)
    → Received calls password (passed_on calls.written password)
unfolding passed_on
passed_on-Received calls password = elim (Option-cases calls.written) [
  | inl e ↦ rw e (nothing-IsPrefix password, inr (λ bad. cc))
  | inr (n, e) ↦ rw e (
    slice-prefix password n,
    elim (Bool-cases (n == len password)) [
      | inl e' ↦ let same : n ≡ len password = ground arith in inl (rw same (slice_all password))
      | inr e' ↦ inr (λ bad. ground arith)
    ],
  )
]

-- The user is accepted.
abbrev pub Accepted : HelperCalls → Option String → Mask → HelperRun → Type 0
Accepted calls answer m r =
    (calls.pipe_made ≡ true)
    × (calls.forked ≡ true)
    × ((password : String) × (text : String) × (answer ≡ some password)
        × (r.sent ≡ some text)
        × Received calls password text)
    × ((n : ℕ) × (rest : List Waited) × (calls.waits ≡ interruptions n (exited 0 ∷ rest)))
    × (r.mask.count ≡ m.count)

ext_run-Accepted :
    (calls : HelperCalls) (password : String) (m : Mask)
    → (ext_run calls password m).result ≡ some true
    → Accepted calls (some password) m (ext_run calls password m)
unfolding ext_run
ext_run-Accepted calls password m =
    let R = λ (r : HelperRun). r.result ≡ some true → Accepted calls (some password) m r in
    if_elim R calls.pipe_made
      (λ piped.
        if_elim R calls.forked
          (λ forked e. (
            piped,
            forked,
            (
              password,
              passed_on calls.written password,
              refl,
              refl,
              passed_on-Received calls password,
            ),
            wait_helper-true calls.waits e,
            waited_mask-some (wait_helper calls.waits) true m e,
          ))
          (λ _ bad. absurd (ground arith)))
      (λ _ bad. absurd (ground arith))

-- A user is accepted only if the prompt gave a password, the helper was started, and it exited with
-- zero after interruptions of the wait at most; what the helper found on its pipe is then a beginning
-- of that password, and the whole of it unless the write failed or was short, which the source does
-- not notice; and SIGCHLD is held back as often as before.
pub gs_auth_verify_user-Accepted :
    (calls : HelperCalls) (answer : Option String) (m : Mask)
    → (gs_auth_verify_user calls answer m).result ≡ some true
    → Accepted calls answer m (gs_auth_verify_user calls answer m)
unfolding gs_auth_verify_user
gs_auth_verify_user-Accepted calls none m e = absurd (ground arith)
gs_auth_verify_user-Accepted calls (some password) m e = ext_run-Accepted calls password m e

-- Where the helper cannot be forked the user is not accepted, and SIGCHLD stays held back: if it was
-- let through before, the next signal to a child aborts the program.
pub ext_run-unforked :
    (calls : HelperCalls) (password : String) (m : Mask) (status : ℤ)
    → calls.pipe_made ≡ true
    → calls.forked ≡ false
    → m.count ≡ pos 0
    → ((ext_run calls password m).result ≡ some false)
      × ((ext_run calls password m).mask.blocked ≡ true)
      × (send_signal status (ext_run calls password m).mask ≡ none)
unfolding ext_run block_sigchld send_signal above below is_zero unblock_sigchld
ext_run-unforked calls password m status piped unforked through =
    rw piped (rw unforked (refl, refl, rw through refl))
