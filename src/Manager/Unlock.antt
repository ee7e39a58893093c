-- ===== src/Manager/Unlock.antt =====
-- A dialog that accepts unlocks the screen (src/gs-window.c, src/gs-manager.c): the answer, the idle
-- source of the window and that of the manager, one after the other.
use xfce4_screensaver.Base.{
  ℕ, zero, suc, ◌≡◌, true, false, List, [], ◌∷◌, if_elim, arith, refl, none, some, Option, String,
  if◌then◌else◌, ap, ◌∙◌,
}
use xfce4_screensaver.Window
use xfce4_screensaver.Window.{Window, accept}
use xfce4_screensaver.Window.Dialog.{line, read_line, response_ok}
use xfce4_screensaver.Manager.{Manager, Platform, find_window, update_window}
use xfce4_screensaver.Manager.Dialogs.{
  dialog_process_watch, read_dialog, read_dialog_line, finish_dialog,
}
use xfce4_screensaver.Manager.Saver.{activate_saver}
use xfce4_screensaver.Manager.Step.{
  dialog_output, deactivated_idle, manager_idle, step, run, at_window, emit_deactivated_idle,
  window_deactivated_idle,
}
use xfce4_screensaver.Manager.Rest.{IsAtRest, deactivate-IsAtRest}

-- A window that is found has the identity asked for, and is found again after an update.
id-find_window : (id : ℕ) (xs : List Window) (x : Window) → find_window id xs ≡ some x → x.id ≡ id
id-find_window id [] x e = cc
id-find_window id (y ∷ ys) x e = let rest = id-find_window id ys x in ground arith

find-update_window :
    (id : ℕ) (f : Window → Window) (xs : List Window) (x : Window)
    → (f x).id ≡ x.id
    → find_window id xs ≡ some x
    → find_window id (update_window id f xs) ≡ some (f x)
find-update_window id f [] x same e = cc
find-update_window id f (y ∷ ys) x same e =
    let rest = find-update_window id f ys x same in ground arith

module _ {Grab : Type 0} (P : Platform Grab) where
  pub at_window_found :
      (id : ℕ) (f : Window → Manager Grab → Manager Grab) (m : Manager Grab) (x : Window)
      → find_window id m.windows ≡ some x
      → at_window P id f m ≡ f x m
  unfolding at_window
  at_window_found id f m x e = ap (λ (o : Option Window). elim o [ none ↦ m | some y ↦ f y m ]) e

  -- The manager after the answer.
  accepted : (x : Window) (m : Manager Grab) → Manager Grab
  accepted x m =
      let x' = record x { dialog_response = accept } in
      let updated = record m { windows = update_window x.id (λ _. x') m.windows } in
      finish_dialog P accept x' updated

  dialog_process_watch_ok :
      (text : String) (x : Window) (m : Manager Grab)
      → read_line P.scan_window_id text ≡ response_ok
      → dialog_process_watch P (line text) x m ≡ accepted x m
  unfolding dialog_process_watch read_dialog read_dialog_line accepted
  dialog_process_watch_ok text x m e = rw e refl

  -- What the answer leaves: the window has its idle source, and the rest that matters is the same.
  accepted_idle :
      (x : Window) (m : Manager Grab)
      → find_window x.id m.windows ≡ some x
      → (y : Window) × (find_window x.id (accepted x m).windows ≡ some y)
        × (y.deactivated_idle ≡ true)
        × ((accepted x m).active ≡ m.active)
        × ((accepted x m).deactivate_idles ≡ m.deactivate_idles)
  unfolding accepted finish_dialog Window.add_emit_deactivated_idle
  accepted_idle x m e =
      let x' = record x { dialog_response = accept } in
      let mark =
        λ (y : Window). record (Window.add_emit_deactivated_idle y) { lock_watch = false } in
      let first : find_window x.id (update_window x.id (λ _. x') m.windows) ≡ some x' =
        find-update_window x.id (λ _. x') m.windows x refl e in
      let second : find_window x.id
            (update_window x.id mark (update_window x.id (λ _. x') m.windows))
          ≡ some (mark x') =
        find-update_window x.id mark (update_window x.id (λ _. x') m.windows) x' refl first in
      (mark x', second, refl, refl, refl)

  -- The idle source of the window leaves one of the manager.
  idle_counted :
      (x : Window) (m : Manager Grab)
      → x.deactivated_idle ≡ true
      → ((emit_deactivated_idle P x m).deactivate_idles ≡ suc m.deactivate_idles)
        × ((emit_deactivated_idle P x m).active ≡ m.active)
  unfolding emit_deactivated_idle
  idle_counted x m e = ground arith

  idle_deactivates :
      (n : ℕ) (m : Manager Grab)
      → n ≡ 1
      → m.active ≡ true
      → IsAtRest P (window_deactivated_idle P n m)
        × ((window_deactivated_idle P n m).lock_active ≡ false)
  unfolding window_deactivated_idle activate_saver
  idle_deactivates zero m e on = absurd (omega arith)
  idle_deactivates (suc n) m e on =
      let (_, rest, unlocked, _, _) =
        deactivate-IsAtRest P (record m { deactivate_idles = n }) on in
      (rest, unlocked)

  -- When the dialog of a window answers OK while the watch on it stands, the answer, the idle source
  -- of the window and that of the manager bring an active screen saver, with no deactivation under
  -- way, to its rest, unlocked.
  pub run_accepted :
      (text : String) (x : Window) (m : Manager Grab)
      → m.active ≡ true
      → m.deactivate_idles ≡ 0
      → find_window x.id m.windows ≡ some x
      → x.lock_watch ≡ true
      → read_line P.scan_window_id text ≡ response_ok
      → let r =
          run P (dialog_output x.id (line text) ∷ deactivated_idle x.id ∷ manager_idle ∷ []) m in
        IsAtRest P r × (r.lock_active ≡ false)
  unfolding run step
  run_accepted text x m on idle found watch ok =
      let (y, found', pending, active', idles') = accepted_idle x m found in
      let answered : step P (dialog_output x.id (line text)) m ≡ accepted x m =
        at_window_found x.id
          (λ x m. if x.lock_watch then dialog_process_watch P (line text) x m else m) m x found
        ∙ (if_elim (λ (n : Manager Grab). n ≡ accepted x m) x.lock_watch
            (λ _. dialog_process_watch_ok text x m ok) (λ e. absurd (cc))) in
      let m2 = emit_deactivated_idle P y (accepted x m) in
      let emitted : step P (deactivated_idle x.id) (accepted x m) ≡ m2 =
        at_window_found x.id (emit_deactivated_idle P) (accepted x m) y found' in
      let (one, active2) = idle_counted y (accepted x m) pending in
      let last =
        idle_deactivates m2.deactivate_idles m2 (omega (arith, one, idles', idle))
          (active2 ∙ active' ∙ on) in
      let R = λ (r : Manager Grab). IsAtRest P r × (r.lock_active ≡ false) in
      let second : R (step P manager_idle (step P (deactivated_idle x.id) (accepted x m))) =
        rw emitted last in
      rw answered second
