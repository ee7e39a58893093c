-- ===== src/Subprocs.antt =====
-- src/subprocs.c: the count of requests to hold SIGCHLD back, and signals for children while it is
-- held. What `kill` answers is a parameter.
use xfce4_screensaver.Base.{zero, suc, Bool, true, false, Option, none, some, if◌then◌else◌}
use xfce4_screensaver.Base.Int.{ℤ, pos, negsuc, ltb_ℤ}

-- block_sigchld_handler, and whether SIGCHLD and SIGPIPE are blocked.
pub record Mask : Type 0 where
  pub count : ℤ
  pub blocked : Bool

-- Adding and subtracting one.
unfoldable pub above : ℤ → ℤ
above (pos n) = pos (suc n)
above (negsuc zero) = pos 0
above (negsuc (suc n)) = negsuc n

unfoldable pub below : ℤ → ℤ
below (pos zero) = negsuc 0
below (pos (suc n)) = pos n
below (negsuc n) = negsuc (suc n)

unfoldable pub block_sigchld : Mask → Mask
unfolding above
block_sigchld m = record { count = above m.count; blocked = true }

unfoldable pub unblock_sigchld : Mask → Mask
unfolding below
unblock_sigchld m = record { count = below m.count; blocked = false }

unfoldable pub is_zero : ℤ → Bool
is_zero (pos zero) = true
is_zero _ = false

-- signal_pid with the answer of `kill`, or `none` where the program aborts.
unfoldable pub send_signal : ℤ → Mask → Option (ℤ × Mask)
unfolding block_sigchld unblock_sigchld is_zero
send_signal status m =
    let after = unblock_sigchld (block_sigchld m) in
    if is_zero m.count
    then (if ltb_ℤ after.count (pos 0) then none else some (status, after))
    else none
