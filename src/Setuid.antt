-- ===== src/Setuid.antt =====
-- src/setuid.c: the program gives up the rights that its file has. The kernel's calls are
-- parameters; the names of users and groups, and the texts made of them, are left out.
pub mod Drops
use xfce4_screensaver.Base.{
  ℕ, ◌-◌, ◌^◌, Bool, true, false, ◌&&◌, ◌||◌, not, Option, none, some, ◌==◌, if◌then◌else◌,
}

-- The real and the effective user and group of the process.
pub record Ids : Type 0 where
  pub uid : ℕ
  pub euid : ℕ
  pub gid : ℕ
  pub egid : ℕ

-- What the calls leave, or `none` where they fail.
pub record Kernel : Type 0 where
  pub setgroups : ℕ → Ids → Option Ids
  pub setgid : ℕ → Ids → Option Ids
  pub setuid : ℕ → Ids → Option Ids

-- An identity of -1 becomes -2, in 32 bits.
unfoldable pub not_minus_one : ℕ → ℕ
not_minus_one n = if n == 2 ^ 32 - 1 then 2 ^ 32 - 2 else n

-- Whether a call succeeded, and the identities, which a call that fails leaves.
unfoldable pub tried : Option Ids → Ids → Bool × Ids
tried none s = (false, s)
tried (some s') s = (true, s')

-- set_ids_by_number: the three calls are all made.
unfoldable pub set_ids_by_number : Kernel → ℕ → ℕ → Ids → Bool × Ids
unfolding tried not_minus_one
set_ids_by_number K uid gid s =
    let (groups_set, s1) = tried (K.setgroups (not_minus_one gid) s) s in
    let (group_set, s2) = tried (K.setgid (not_minus_one gid) s1) s1 in
    let (user_set, s3) = tried (K.setuid (not_minus_one uid) s2) s2 in
    (groups_set && group_set && user_set, s3)

-- The reasons that hack_uid gives for not locking.
pub data NoLock : Type 0 where
  unable_to_discard running_as_root : NoLock

-- The rights are given up where the effective identity differs from the real one.
unfoldable pub discard : Kernel → Ids → Bool × Ids
unfolding set_ids_by_number
discard K s =
    if not (s.uid == s.euid) || not (s.gid == s.egid)
    then set_ids_by_number K s.uid s.gid s
    else (true, s)

-- hack_uid, in a build without BSD authentication: the reason against locking, if there is one.
unfoldable pub hack_uid : Kernel → Ids → Option NoLock × Ids
unfolding discard
hack_uid K s =
    let (ok, left) = discard K s in
    if not ok
    then (some unable_to_discard, left)
    else if left.uid == 0
    then (some running_as_root, left)
    else (none, left)
