-- ===== src/LockPlug/Greeter.antt =====
-- The switch button and what it starts (src/gs-lock-plug.c).
use xfce4_screensaver.Base.{Bool, true, false, ◌||◌, ◌≡◌, arith, Bool-cases, inl, inr}
use xfce4_screensaver.LockPlug.{Plug, Toolkit}
use xfce4_screensaver.LockPlug.Switch.{
  Switch, spawn_command, switch_to_greeter, nothing, do_user_switch, is_equal,
  gs_lock_plug_set_switch_enabled,
}

-- Whether anything is started.
unfoldable pub is_started : Switch → Bool
is_started (spawn_command command) = true
is_started switch_to_greeter = true
is_started nothing = false

-- When the switch of users is turned on, the button for it is shown just if a press of it starts
-- something, with the same processes running.
pub set_switch_enabled-do_user_switch :
    (t : Toolkit) (p : Plug)
    → p.switch_enabled ≡ false
    → (gs_lock_plug_set_switch_enabled t true p).switch_shown ≡ is_started (do_user_switch t)
unfolding gs_lock_plug_set_switch_enabled do_user_switch is_started is_equal
set_switch_enabled-do_user_switch t p off =
    let mdm = t.is_running "mdm" in
    let gdm = t.is_running "gdm" || t.is_running "gdm3" || t.is_running "gdm-binary" in
    let others = t.is_running "lightdm" || t.is_running "sddm" in
    elim (Bool-cases mdm) [
      | inl m ↦ ground (arith, off, m)
      | inr m ↦ elim (Bool-cases gdm) [
        | inl g ↦ ground (arith, off, m, g)
        | inr g ↦ elim (Bool-cases others) [
          | inl o ↦ ground (arith, off, m, g, o)
          | inr o ↦ ground (arith, off, m, g, o)
        ]
      ]
    ]
