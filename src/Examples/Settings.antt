-- ===== src/Examples/Settings.antt =====
-- The theorems on the settings of src/gs-prefs.c at concrete channels.
use xfce4_screensaver.Base.{ℕ, zero, suc, ◌≡◌, ◌<◌, arith}
use xfce4_screensaver.Prefs.Keys.{key_changed_cb, load_from_settings, mode, name, key_idle_delay}
use xfce4_screensaver.Prefs.Bounds.{IsBounded, key_changed_cb-IsBounded}
use xfce4_screensaver.Prefs.Refresh.{AgreeBut, key_changed_cb-load}
use xfce4_screensaver.Examples.{channel, random_channel, prefs}

channels-AgreeBut : AgreeBut (name mode) channel random_channel
channels-AgreeBut j b n s e = ground arith

key_changed_cb-load_example :
    key_changed_cb random_channel (name mode) (load_from_settings channel prefs)
    ≡ load_from_settings random_channel prefs
key_changed_cb-load_example =
    key_changed_cb-load mode channel random_channel prefs channels-AgreeBut

prefs-IsBounded : IsBounded prefs
prefs-IsBounded = ground arith

key_changed_cb-IsBounded_example : IsBounded (key_changed_cb channel key_idle_delay prefs)
key_changed_cb-IsBounded_example =
    key_changed_cb-IsBounded channel key_idle_delay prefs prefs-IsBounded

-- A source of numbers below the bound.
abbrev last : ℕ → ℕ
last zero = zero
last (suc n) = n

last-lt : (n : ℕ) → 0 < n → last n < n
last-lt zero h = omega arith
last-lt (suc n) h = omega arith
