-- ===== src/Examples/Dialog.antt =====
-- The theorems on the parts of the password dialog (src/gs-auth-helper.c, src/gs-auth-pam.c,
-- src/setuid.c) at concrete answers of the system.
use xfce4_screensaver.Base.{◌≡◌, ◌≢◌, true, false, none, some, [], ◌∷◌, arith, refl, inl}
use xfce4_screensaver.Base.Int.{pos}
use xfce4_screensaver.Subprocs.{Mask}
use xfce4_screensaver.AuthHelper.{
  HelperCalls, interrupted, exited, ext_run, gs_auth_verify_user, wait_helper,
}
use xfce4_screensaver.AuthHelper.Balance.{Accepted, gs_auth_verify_user-Accepted}
use xfce4_screensaver.Setuid.{
  Ids, Kernel, hack_uid, discard, set_ids_by_number, tried, not_minus_one,
}
use xfce4_screensaver.Setuid.Drops.{KernelLaws, Own, hack_uid-Own}

abbrev through : Mask
through = record { count = pos 0; blocked = false }

abbrev calls : HelperCalls
calls = record {
  pipe_made = true;
  forked = true;
  written = some 6;
  waits = interrupted ∷ exited 0 ∷ [];
}

accepted : (gs_auth_verify_user calls (some "secret") through).result ≡ some true
unfolding gs_auth_verify_user ext_run wait_helper
accepted = refl

gs_auth_verify_user-Accepted_example :
    Accepted calls (some "secret") through (gs_auth_verify_user calls (some "secret") through)
gs_auth_verify_user-Accepted_example =
    gs_auth_verify_user-Accepted calls (some "secret") through accepted

-- A program whose file belongs to root.
abbrev ids : Ids
ids = record { uid = 1000; euid = 0; gid = 100; egid = 0 }

abbrev kernel : Kernel
kernel = record {
  setgroups = λ g s. some s;
  setgid = λ g s. some (record s { gid = g; egid = g });
  setuid = λ u s. some (record s { uid = u; euid = u });
}

kernel_laws : KernelLaws kernel
kernel_laws = record {
  groups = λ g s. refl;
  group = λ g s. (refl, inl refl, refl, refl);
  user = λ u s. (refl, inl refl, refl, refl);
}

may_lock : (hack_uid kernel ids).0 ≡ none
unfolding hack_uid discard set_ids_by_number tried not_minus_one
may_lock = refl

hack_uid-Own_example : Own ids (hack_uid kernel ids).1 × (ids.uid ≢ 0)
hack_uid-Own_example =
    hack_uid-Own kernel kernel_laws ids (λ e. ground arith) (λ e. ground arith) may_lock
