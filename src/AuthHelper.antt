-- ===== src/AuthHelper.antt =====
-- src/gs-auth-helper.c: the password is checked by a helper program that reads it from a pipe. What
-- the system calls and the prompt answer are parameters.
pub mod Balance
use xfce4_screensaver.Base.{
  ℕ, Bool, true, false, Option, none, some, List, [], ◌∷◌, String, ◌==◌, if◌then◌else◌,
}
use Prim.Native.String.{slice}
use xfce4_screensaver.Subprocs.{Mask, block_sigchld, unblock_sigchld}

-- What `waitpid` answers: an interruption, another error, or how the helper ended.
pub data Waited : Type 0 where
  interrupted wait_failed signalled : Waited
  exited : ℕ → Waited

-- The answers of `pipe`, `fork` and `write`, which fails or gives the bytes that it wrote, and those of
-- `waitpid`, in order.
pub record HelperCalls : Type 0 where
  pub pipe_made : Bool
  pub forked : Bool
  pub written : Option ℕ
  pub waits : List Waited

-- What ext_run leaves: its result, or `none` while it waits, the signal mask, and what a helper that was
-- started finds on its pipe.
pub record HelperRun : Type 0 where
  pub result : Option Bool
  pub mask : Mask
  pub sent : Option String

-- The loop of `waitpid`.
unfoldable pub wait_helper : List Waited → Option Bool
wait_helper [] = none
wait_helper (interrupted ∷ ws) = wait_helper ws
wait_helper (wait_failed ∷ ws) = some false
wait_helper (signalled ∷ ws) = some false
wait_helper (exited code ∷ ws) = some (code == 0)

-- SIGCHLD is let through again once the wait is over.
unfoldable pub waited_mask : Option Bool → Mask → Mask
unfolding unblock_sigchld
waited_mask none m = m
waited_mask (some _) m = unblock_sigchld m

-- What `write` passes on of a text. A short write is taken to end between two characters.
unfoldable pub passed_on : Option ℕ → String → String
passed_on none text = ""
passed_on (some n) text = slice text 0 n

-- The source ignores what `write` answers.
unfoldable pub ext_run : HelperCalls → String → Mask → HelperRun
unfolding wait_helper waited_mask block_sigchld passed_on
ext_run calls password m =
    let held = block_sigchld m in
    let result = wait_helper calls.waits in
    if calls.pipe_made
    then (if calls.forked
        then record {
          result = result;
          mask = waited_mask result held;
          sent = some (passed_on calls.written password);
        }
        else record { result = some false; mask = held; sent = none })
    else record { result = some false; mask = m; sent = none }

-- gs_auth_verify_user, with what the prompt answers.
unfoldable pub gs_auth_verify_user : HelperCalls → Option String → Mask → HelperRun
unfolding ext_run
gs_auth_verify_user calls none m = record { result = some false; mask = m; sent = none }
gs_auth_verify_user calls (some password) m = ext_run calls password m
