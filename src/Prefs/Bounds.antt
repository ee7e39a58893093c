-- ===== src/Prefs/Bounds.antt =====
-- The bounds that the setters of src/gs-prefs.c enforce.
use xfce4_screensaver.Base.{◌≤◌, String, inl, inr, arith}
use xfce4_screensaver.Base.Int.{ℤ}
use xfce4_screensaver.Prefs.{
  Prefs, set_timeout, set_lock_timeout, set_cycle_timeout, set_logout_timeout,
}
use xfce4_screensaver.Prefs.Keys.{
  Channel, load_from_settings, key_changed_cb, Key, name, mode, key_changed_cb_cases,
}

pub record IsBounded (p : Prefs) : Type 0 where
  pub timeout_ge : 1 ≤ p.timeout
  pub timeout_le : p.timeout ≤ 480
  pub lock_timeout_le : p.lock_timeout ≤ 480
  pub cycle_ge : 60 ≤ p.cycle
  pub cycle_le : p.cycle ≤ 28800
  pub logout_timeout_le : p.logout_timeout ≤ 28800000

timeout_bounds :
    (p : Prefs) (v : ℤ) → (1 ≤ (set_timeout p v).timeout) × ((set_timeout p v).timeout ≤ 480)
unfolding set_timeout
timeout_bounds p v = ground arith

lock_timeout_bound : (p : Prefs) (v : ℤ) → (set_lock_timeout p v).lock_timeout ≤ 480
unfolding set_lock_timeout
lock_timeout_bound p v = ground arith

cycle_bounds :
    (p : Prefs) (v : ℤ)
    → (60 ≤ (set_cycle_timeout p v).cycle) × ((set_cycle_timeout p v).cycle ≤ 28800)
unfolding set_cycle_timeout
cycle_bounds p v = ground arith

logout_timeout_bound : (p : Prefs) (v : ℤ) → (set_logout_timeout p v).logout_timeout ≤ 28800000
unfolding set_logout_timeout
logout_timeout_bound p v = ground arith

-- Whatever the channel answers, the settings that are read from it lie within the bounds.
pub load_from_settings-IsBounded : (ch : Channel) (p : Prefs) → IsBounded (load_from_settings ch p)
unfolding load_from_settings
load_from_settings-IsBounded ch p = ground arith

at_key :
    (key : Key) (ch : Channel) (p : Prefs)
    → IsBounded p
    → IsBounded (key_changed_cb ch (name key) p)
unfolding key_changed_cb
at_key mode ch p h = ground arith
at_key _ ch p h = ground arith

-- A change of any property, known or not and to any value, keeps the settings within the bounds.
pub key_changed_cb-IsBounded :
    (ch : Channel) (property : String) (p : Prefs)
    → IsBounded p
    → IsBounded (key_changed_cb ch property p)
key_changed_cb-IsBounded ch property p h = elim (key_changed_cb_cases ch property p) [
  | inl (key, e) ↦ rw e (at_key key ch p h)
  | inr same ↦ rw same h
]
