-- ===== src/Grab.antt =====
-- src/gs-grab.c: the grab of the keyboard and the pointer on X11. This file is the interface that
-- the manager uses; the children implement it over the answers of an X server.
pub mod Seat
pub mod Laws
use xfce4_screensaver.Base.{ℕ, ◌≡◌, Bool, true, Option, none, some}

-- The window that holds the grab.
pub data Holder : Type 0 where
  root_window overlay_window : Holder
  saver_window : ℕ → Holder

-- gs_grab_grab_root, gs_grab_move_to_window, gs_grab_release and gs_grab_reset. The flag of the
-- first two is `no_pointer_grab`; the cursor is never hidden.
pub record GrabOps (Grab : Type 0) : Type 0 where
  pub holder : Grab → Option Holder
  pub grab_root : Bool → Grab → Bool × Grab
  pub move_to_window : Holder → Bool → Grab → Grab
  pub release : Grab → Grab
  pub reset : Grab → Grab

-- What the manager relies on.
pub record GrabLaws {Grab : Type 0} (ops : GrabOps Grab) : Type 0 where
  pub holder-grab_root :
      (no_pointer : Bool) (g : Grab)
      → (ops.grab_root no_pointer g).0 ≡ true
      → ops.holder (ops.grab_root no_pointer g).1 ≡ some root_window
  pub holder-move_to_window :
      (h : Holder) (no_pointer : Bool) (g : Grab)
      → ops.holder (ops.move_to_window h no_pointer g) ≡ some h
  pub holder-release : (g : Grab) → ops.holder (ops.release g) ≡ none
  pub holder-reset : (g : Grab) → ops.holder (ops.reset g) ≡ none
