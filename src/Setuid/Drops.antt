-- ===== src/Setuid/Drops.antt =====
-- After hack_uid the process has no rights but the user's (src/setuid.c).
use xfce4_screensaver.Base.{
  ℕ, ◌≡◌, ◌≢◌, ◌-◌, ◌^◌, Bool, true, ◌||◌, not, Option, none, some, OnSome, ◌==◌, ◌⊎◌, inl, inr,
  if_elim, refl, arith, ◌∙◌, ap,
}
use xfce4_screensaver.Setuid.{
  Ids, Kernel, not_minus_one, tried, set_ids_by_number, discard, NoLock, hack_uid,
}

-- What setgroups, setgid and setuid do when they succeed: the groups are not identities, the
-- effective identity becomes the one asked for, and the real one becomes it too or stays.
pub record KernelLaws (K : Kernel) : Type 0 where
  pub groups : (g : ℕ) (s : Ids) → OnSome (λ (r : Ids). r ≡ s) (K.setgroups g s)
  pub group :
      (g : ℕ) (s : Ids)
      → OnSome
          (λ (r : Ids).
            (r.egid ≡ g) × ((r.gid ≡ g) ⊎ (r.gid ≡ s.gid)) × (r.uid ≡ s.uid) × (r.euid ≡ s.euid))
          (K.setgid g s)
  pub user :
      (u : ℕ) (s : Ids)
      → OnSome
          (λ (r : Ids).
            (r.euid ≡ u) × ((r.uid ≡ u) ⊎ (r.uid ≡ s.uid)) × (r.gid ≡ s.gid) × (r.egid ≡ s.egid))
          (K.setuid u s)

got {ℓ} :
    (Q : Ids → Type ℓ) (o : Option Ids) (s : Ids)
    → OnSome Q o
    → (tried o s).0 ≡ true
    → Q (tried o s).1
unfolding tried
got Q none s h e = absurd (cc)
got Q (some r) s h e = h

-- The identities are the user's.
abbrev pub Own : Ids → Ids → Type 0
Own s r = (r.uid ≡ s.uid) × (r.euid ≡ s.uid) × (r.gid ≡ s.gid) × (r.egid ≡ s.gid)

kept_id : (n : ℕ) → n ≢ 2 ^ 32 - 1 → not_minus_one n ≡ n
unfolding not_minus_one
kept_id n h = ground arith

module _ (K : Kernel) (k : KernelLaws K) where
  set_ids-Own :
      (s : Ids)
      → s.uid ≢ 2 ^ 32 - 1
      → s.gid ≢ 2 ^ 32 - 1
      → (set_ids_by_number K s.uid s.gid s).0 ≡ true
      → Own s (set_ids_by_number K s.uid s.gid s).1
  unfolding set_ids_by_number
  set_ids-Own s not_u not_g h =
      let g = not_minus_one s.gid in
      let u = not_minus_one s.uid in
      let eg : g ≡ s.gid = kept_id s.gid not_g in
      let eu : u ≡ s.uid = kept_id s.uid not_u in
      let o1 = K.setgroups g s in
      let s1 = (tried o1 s).1 in
      let o2 = K.setgid g s1 in
      let s2 = (tried o2 s1).1 in
      let o3 = K.setuid u s2 in
      let ok1 : (tried o1 s).0 ≡ true = ground arith in
      let ok2 : (tried o2 s1).0 ≡ true = ground arith in
      let ok3 : (tried o3 s2).0 ≡ true = ground arith in
      let e1 = got (λ (r : Ids). r ≡ s) o1 s (k.groups g s) ok1 in
      let e2 =
        got
          (λ (r : Ids).
            (r.egid ≡ g) × ((r.gid ≡ g) ⊎ (r.gid ≡ s1.gid)) × (r.uid ≡ s1.uid) × (r.euid ≡ s1.euid))
          o2 s1 (k.group g s1) ok2 in
      let e3 =
        got
          (λ (r : Ids).
            (r.euid ≡ u) × ((r.uid ≡ u) ⊎ (r.uid ≡ s2.uid)) × (r.gid ≡ s2.gid) × (r.egid ≡ s2.egid))
          o3 s2 (k.user u s2) ok3 in
      let uid2 : s2.uid ≡ s.uid = e2.2 ∙ ap (λ (r : Ids). r.uid) e1 in
      let gid2 : s2.gid ≡ s.gid = elim e2.1 [
        | inl e ↦ e ∙ eg
        | inr e ↦ e ∙ ap (λ (r : Ids). r.gid) e1
      ] in
      let uid3 : (tried o3 s2).1.uid ≡ s.uid = elim e3.1 [ inl e ↦ e ∙ eu | inr e ↦ e ∙ uid2 ] in
      (uid3, e3.0 ∙ eu, e3.2 ∙ gid2, e3.3 ∙ e2.0 ∙ eg)

  discard-Own :
      (s : Ids)
      → s.uid ≢ 2 ^ 32 - 1
      → s.gid ≢ 2 ^ 32 - 1
      → (discard K s).0 ≡ true
      → Own s (discard K s).1
  unfolding discard
  discard-Own s not_u not_g =
      if_elim (λ (r : Bool × Ids). r.0 ≡ true → Own s r.1)
        (not (s.uid == s.euid) || not (s.gid == s.egid)) (λ _ h. set_ids-Own s not_u not_g h)
        λ e _.
          let e1 : s.euid ≡ s.uid = ground arith in
          let e2 : s.egid ≡ s.gid = ground arith in (refl, e1, refl, e2)

  -- Where hack_uid has no reason against locking, the process has the identities of the user who
  -- started it, real and effective, and that user is not root; if the kernel's calls do what they
  -- say when they succeed, and the user's and the group's identity is not -1.
  pub hack_uid-Own :
      (s : Ids)
      → s.uid ≢ 2 ^ 32 - 1
      → s.gid ≢ 2 ^ 32 - 1
      → (hack_uid K s).0 ≡ none
      → Own s (hack_uid K s).1 × (s.uid ≢ 0)
  unfolding hack_uid
  hack_uid-Own s not_u not_g =
      let R = λ (r : Option NoLock × Ids). r.0 ≡ none → Own s r.1 × (s.uid ≢ 0) in
      let d = discard K s in
      if_elim R (not d.0) (λ _ bad. absurd (cc))
        λ ok.
          if_elim R (d.1.uid == 0) (λ _ bad. absurd (cc))
            λ not_root _.
              let own = discard-Own s not_u not_g (ground arith) in
              (own, λ root. absurd (let e = own.0 ∙ root in ground arith))
