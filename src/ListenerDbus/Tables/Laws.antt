-- ===== src/ListenerDbus/Tables/Laws.antt =====
-- What the handlers of the listener's signals promise of its tables (src/gs-listener-dbus.c): they
-- leave them, and the throttle flag, as they are.
use xfce4_screensaver.Base.{ℕ, ◌≡◌, Bool, true, not, ◌||◌, String, if_elim, refl, ◌∙◌, arith}
use xfce4_screensaver.ListenerDbus.{ListenerDbus, World, Handlers, Activator}
use xfce4_screensaver.ListenerDbus.Activation.{
  activate_saver, set_active_internal, send_signal_active_changed, same, check_activation,
  is_inhibited,
}
use xfce4_screensaver.ListenerDbus.Tables.{IsWellFormed}

-- The tables and the throttle flag are the same.
abbrev pub SameTables : ListenerDbus → ListenerDbus → Type 0
SameTables l r =
    (r.inhibitors ≡ l.inhibitors) × (r.throttlers ≡ l.throttlers) × (r.throttled ≡ l.throttled)

pub same_then : (l k r : ListenerDbus) → SameTables l k → SameTables k r → SameTables l r
same_then l k r a b = (b.0 ∙ a.0, b.1 ∙ a.1, b.2 ∙ a.2)

pub IsWellFormed-same : (l r : ListenerDbus) → SameTables l r → IsWellFormed l → IsWellFormed r
IsWellFormed-same l r e h = rw e.0 (rw e.1 (rw e.2 h))

pub record KeepsTables {S : Type 0} (H : Handlers S) : Type 0 where
  pub lock : (w : World S) → SameTables w.listener (H.lock w).listener
  pub quit : (w : World S) → SameTables w.listener (H.quit w).listener
  pub cycle : (w : World S) → SameTables w.listener (H.cycle w).listener
  pub simulate : (w : World S) → SameTables w.listener (H.simulate_user_activity w).listener
  pub prompt : (w : World S) → SameTables w.listener (H.request_password_prompt w).listener
  pub show :
      (a b c : String) (w : World S) → SameTables w.listener (H.show_message a b c w).listener
  pub throttle :
      (on : Bool) (w : World S) → SameTables w.listener (H.throttle_changed on w).listener
  pub active_changed :
      (on : Bool) (w : World S) → SameTables w.listener (H.activator.active_changed on w).1.listener

pub set_active_internal-same :
    (now : ℕ) (on : Bool) (l : ListenerDbus) → SameTables l (set_active_internal now on l)
unfolding set_active_internal send_signal_active_changed
set_active_internal-same now on l = ground arith

pub activate_saver-same :
    {S : Type 0} (A : Activator S) (on : Bool) (w : World S)
    → SameTables w.listener (A.active_changed on w).1.listener
    → SameTables w.listener (activate_saver A on w).1.listener
unfolding activate_saver
activate_saver-same {S} A on w h =
    let R = λ (r : Bool × World S). SameTables w.listener r.1.listener in
    let r = A.active_changed on w in
    if_elim R (same w.listener.active on) (λ _. (refl, refl, refl))
      λ _.
        if_elim R r.0
          (λ _.
            same_then w.listener r.1.listener
              (set_active_internal (A.time r.1.rest) on r.1.listener) h
              (set_active_internal-same (A.time r.1.rest) on r.1.listener))
          (λ _. h)

module _ {S : Type 0} (H : Handlers S) (k : KeepsTables H) where
  pub check_activation-same :
      (w : World S) → SameTables w.listener (check_activation H w).1.listener
  unfolding check_activation
  check_activation-same w =
      let R = λ (r : Bool × World S). SameTables w.listener r.1.listener in
      let p = H.prefs w.rest in
      if_elim R (not p.saver_enabled || not p.idle_activation_enabled) (λ _. (refl, refl, refl))
        λ _.
          if_elim R (not w.listener.session_idle) (λ _. (refl, refl, refl))
            λ _.
              if_elim R (not (is_inhibited w.listener))
                (λ _. activate_saver-same H.activator true w (k.active_changed true w))
                (λ _. (refl, refl, refl))
