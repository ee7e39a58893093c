-- ===== src/Manager/Activation/Begin.antt =====
-- The activation once the devices and the session are taken (src/gs-manager.c): windows are created,
-- and then shown.
use xfce4_screensaver.Base.{
  ℕ, suc, ◌≡◌, Bool, true, false, ◌&&◌, List, [], ◌∷◌, ◌++◌, All, All-append, if_elim, arith, ◌==◌,
  refl, some, Option, String, sym, ap, ◌∙◌, if◌then◌else◌,
}
use mathlib.Core.List.{head?, append-nil}
use xfce4_screensaver.Window
use xfce4_screensaver.Window.{Window, cancel}
use xfce4_screensaver.Manager.{Manager, Platform, activated}
use xfce4_screensaver.Manager.Windows.{
  create_window_for_monitor, create_each, create_windows, show_windows, show_window,
  manager_show_window,
}
use xfce4_screensaver.Manager.Locker.{
  add_lock_timer, enable_locker, remove_lock_timer, add_cycle_timer, remove_cycle_timer,
}
use xfce4_screensaver.Manager.Saver.{begin}
use xfce4_screensaver.Manager.Activation.{Due, monitors_of, show_windows-Shown}
use xfce4_screensaver.Manager.Locked.{Kept, IsLocked}
use xfce4_screensaver.Manager.Locked.Windows.{show_windows-IsLocked}

-- A window that is not shown yet, with the lock flag of the manager.
abbrev pub Fresh : Bool → Window → Type 0
Fresh lock x =
    (x.visible ≡ false)
    × (x.lock_active ≡ lock)
    × (x.deactivated_idle ≡ false)
    × (x.dialog_response ≡ cancel)

new-Fresh :
    (id monitor : ℕ) (message : Option String) (lock : Bool)
    → Fresh lock
        (Window.set_lock_active lock (Window.set_status_message message (Window.new id monitor)))
unfolding Window.set_lock_active Window.set_status_message Window.new
new-Fresh id monitor message true = (refl, refl, refl, refl)
new-Fresh id monitor message false = (refl, refl, refl, refl)

monitor-new :
    (id monitor : ℕ) (message : Option String) (lock : Bool)
    → (Window.set_lock_active lock
        (Window.set_status_message message (Window.new id monitor))).monitor
      ≡ monitor
unfolding Window.set_lock_active Window.set_status_message Window.new
monitor-new id monitor message true = refl
monitor-new id monitor message false = refl

monitors-append :
    (xs : List Window) (x : Window) (ms : List ℕ)
    → monitors_of (xs ++ x ∷ []) ++ ms ≡ monitors_of xs ++ x.monitor ∷ ms
monitors-append [] x ms = refl
monitors-append (y ∷ xs) x ms = let rest = monitors-append xs x ms in cc

Due-more : (x : Window) (xs ys : List Window) → All (Due xs) ys → All (Due (x ∷ xs)) ys
Due-more x xs [] h = tt
Due-more x xs (y ∷ ys) h = (ground arith, Due-more x xs ys h.1)

Due-own : (xs : List Window) → All (Due xs) xs
Due-own [] = tt
Due-own (x ∷ xs) = (ground arith, Due-more x xs xs (Due-own xs))

hidden-Fresh :
    (lock : Bool) (xs : List Window) → All (Fresh lock) xs → All (λ x. x.visible ≡ false) xs
hidden-Fresh lock [] h = tt
hidden-Fresh lock (x ∷ xs) h = (h.0.0, hidden-Fresh lock xs h.1)

Kept-Fresh : (xs : List Window) → All (Fresh true) xs → All Kept xs
Kept-Fresh [] h = tt
Kept-Fresh (x ∷ xs) h = ((h.0.1, h.0.2, h.0.3), Kept-Fresh xs h.1)

visible-Due : (xs : List Window) → All (Due []) xs → All (λ x. x.visible ≡ true) xs
visible-Due [] h = tt
visible-Due (x ∷ xs) h = (ground arith, visible-Due xs h.1)

-- What the creation of windows makes of an inactive manager.
abbrev CreatedFrom : {Grab : Type 0} → Bool → Manager Grab → List ℕ → Manager Grab → Type 0
CreatedFrom lock m ms r =
    (r.active ≡ false)
    × (r.lock_active ≡ lock)
    × (r.deactivate_idles ≡ m.deactivate_idles)
    × (monitors_of r.windows ≡ monitors_of m.windows ++ ms)
    × All (Fresh lock) r.windows

module _ {Grab : Type 0} (P : Platform Grab) where
  create_each-Created :
      (lock : Bool) (ms : List ℕ) (m : Manager Grab)
      → m.active ≡ false
      → m.lock_active ≡ lock
      → All (Fresh lock) m.windows
      → CreatedFrom lock m ms (create_each P ms m)
  unfolding create_each create_window_for_monitor
  create_each-Created lock [] m off l h =
      (off, l, refl, sym (append-nil (monitors_of m.windows)), h)
  create_each-Created lock (k ∷ ms) m off l h =
      let x =
        Window.set_lock_active m.lock_active
          (Window.set_status_message m.status_message (Window.new m.next_id k)) in
      let inserted = record m { windows = m.windows ++ x ∷ []; next_id = suc m.next_id } in
      let new_one : Fresh lock x = rw l (new-Fresh m.next_id k m.status_message lock) in
      let (off', l', i', c', h') =
        create_each-Created lock ms inserted off l
          (All-append (Fresh lock) m.windows (x ∷ []) h (new_one, tt)) in
      let covered =
        c'
        ∙ monitors-append m.windows x ms
        ∙ ap (λ n. monitors_of m.windows ++ n ∷ ms)
            (monitor-new m.next_id k m.status_message m.lock_active) in
      if_elim (λ (n : Manager Grab). CreatedFrom lock m (k ∷ ms) (create_each P ms n)) m.active
        (λ on. absurd (cc)) (λ _. (off', l', i', covered, h'))

  create_windows-Created :
      (lock : Bool) (m : Manager Grab)
      → m.active ≡ false
      → m.lock_active ≡ lock
      → m.windows ≡ []
      → CreatedFrom lock m m.display.monitors (create_windows P m)
  unfolding create_windows
  create_windows-Created lock m off l none_left =
      create_each-Created lock m.display.monitors
        (record m {
          watches_monitors = true;
          overlay_shown = if m.display.wayland then m.overlay_shown else true;
        })
        off l (rw none_left tt)

  pub active-show_windows :
      (xs : List Window) (m : Manager Grab) → (show_windows P xs m).active ≡ m.active
  unfolding show_windows show_window manager_show_window add_lock_timer enable_locker
      remove_lock_timer add_cycle_timer remove_cycle_timer
  active-show_windows [] m = refl
  active-show_windows (x ∷ xs) m = active-show_windows xs (show_window P x m) ∙ ground arith

  -- The screen saver is shown: it is active, a window is shown on each monitor and on nothing else,
  -- and "activated" was emitted last.
  abbrev pub IsShownOn : List ℕ → Manager Grab → Type 0
  IsShownOn monitors r =
      (r.active ≡ true)
      × (monitors_of r.windows ≡ monitors)
      × All (λ x. x.visible ≡ true) r.windows
      × (head? r.emitted ≡ some activated)

  pub begin-IsShownOn :
      (m : Manager Grab)
      → m.active ≡ false
      → m.windows ≡ []
      → IsShownOn m.display.monitors (begin P m)
  unfolding begin
  begin-IsShownOn m off none_left =
      let immediate =
        m.prefs.lock_enabled && m.prefs.lock_with_saver_enabled && m.prefs.lock_timeout == 0 in
      let ready = record m { lock_active = if immediate then true else m.lock_active } in
      let created = create_windows P ready in
      let (off', l', i', c', h') =
        create_windows-Created ready.lock_active ready off refl none_left in
      let covered = c' ∙ ap (λ xs. monitors_of xs ++ m.display.monitors) none_left in
      let hidden = hidden-Fresh ready.lock_active created.windows h' in
      let (same, seen) =
        show_windows-Shown P m.display.monitors created.windows (record created { active = true })
          hidden (covered, Due-own created.windows) in
      (
        active-show_windows created.windows (record created { active = true }),
        same,
        visible-Due (show_windows P created.windows (record created { active = true })).windows
            seen,
        refl,
      )

  pub begin-IsLocked :
      (m : Manager Grab)
      → m.active ≡ false
      → m.windows ≡ []
      → m.deactivate_idles ≡ 0
      → m.prefs.lock_enabled ≡ true
      → m.prefs.lock_with_saver_enabled ≡ true
      → m.prefs.lock_timeout ≡ 0
      → IsLocked (begin P m)
  unfolding begin
  begin-IsLocked m off none_left idle on with_saver at_once =
      let immediate =
        m.prefs.lock_enabled && m.prefs.lock_with_saver_enabled && m.prefs.lock_timeout == 0 in
      let ready = record m { lock_active = if immediate then true else m.lock_active } in
      let created = create_windows P ready in
      let locks : ready.lock_active ≡ true = ground arith in
      let (off', l', i', c', h') = create_windows-Created true ready off locks none_left in
      let started : IsLocked (record created { active = true }) = record {
        is_on = refl;
        is_locked = l';
        no_idle = i' ∙ idle;
        kept = Kept-Fresh created.windows h';
      } in
      let shown : IsLocked (show_windows P created.windows (record created { active = true })) =
        show_windows-IsLocked P created.windows (record created { active = true }) started in
      shown
