-- ===== src/Listener.antt =====
-- src/gs-listener.c: the base class of the listeners to idleness, which keeps the timeouts that the
-- settings ask for and tells its subclass of changes.
pub mod Refresh
use xfce4_screensaver.Base.{
  ℕ, ◌*◌, ◌%◌, ◌^◌, Bool, true, false, ◌&&◌, ◌||◌, not, ◌==◌, if◌then◌else◌,
}
use xfce4_screensaver.Prefs.{Prefs}

-- The signals of a listener.
pub data Signal : Type 0 where
  activate lock poke : Signal

-- GSListenerPrivate.
pub record Listener : Type 0 where
  pub enabled : Bool
  pub timeout : ℕ
  pub lock_enabled : Bool
  pub lock_timeout : ℕ

-- A new object is zero.
abbrev pub new : Listener
new = record { enabled = false; timeout = 0; lock_enabled = false; lock_timeout = 0 }

differ : Bool → Bool → Bool
differ true b = not b
differ false b = b

-- The values that the settings ask for; a product that is too large for a `guint` wraps around.
unfoldable pub wanted : Prefs → Listener
wanted p = record {
  enabled = p.saver_enabled && p.idle_activation_enabled;
  timeout = p.timeout * 60 % 2 ^ 32;
  lock_enabled = p.lock_with_saver_enabled;
  lock_timeout = p.lock_timeout * 60 % 2 ^ 32;
}

unfoldable pub update_needed : Prefs → Listener → Bool
unfolding differ wanted
update_needed p l =
    differ l.enabled (wanted p).enabled
    || not (l.timeout == (wanted p).timeout)
    || differ l.lock_enabled (wanted p).lock_enabled
    || not (l.lock_timeout == (wanted p).lock_timeout)

-- set_timeouts, with the method of the subclass on its own state.
unfoldable pub set_timeouts :
    {S : Type 0} → (Bool → ℕ → ℕ → S → S) → Prefs → Listener × S → Listener × S
unfolding wanted update_needed
set_timeouts subclass p (l, s) = (
  wanted p,
  if update_needed p l
      then subclass (wanted p).enabled (wanted p).timeout (wanted p).lock_timeout s
      else s,
)
