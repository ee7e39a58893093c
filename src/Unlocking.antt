-- ===== src/Unlocking.antt =====
-- The unlock dialog (src/xfce4-screensaver-dialog.c) and the daemon (src/gs-monitor.c) together: the
-- daemon reads the lines that the dialog prints.
use xfce4_screensaver.Base.{
  refl, ℕ, ◌≡◌, ◌≢◌, ◌⊎◌, inl, inr, false, Option, List, [], ◌∷◌, String, All, sym, Bool-cases,
  arith,
}
use mathlib.Core.Path.{subst}
use xfce4_screensaver.Window.Dialog.{line, response_ok, read_line}
use xfce4_screensaver.ListenerDbus.{World}
use xfce4_screensaver.Manager.{Platform}
use xfce4_screensaver.Manager.Step.{dialog_output}
use xfce4_screensaver.Monitor.{Daemon, DaemonEvent, manager_event, run}
use xfce4_screensaver.Monitor.Lock.{LockedDaemon}
use xfce4_screensaver.Monitor.Lock.Run.{KeepsLock, run-LockedDaemon}
use xfce4_screensaver.UnlockDialog.{
  Output, window_id, report, cancelled, accepted, auth_failed, quit_requested, Ui,
}
use xfce4_screensaver.UnlockDialog.Program.{Start, main}
use xfce4_screensaver.UnlockDialog.Quiet.{has_accepted}
use xfce4_screensaver.UnlockDialog.Lines.{meaning, output_text, read_line-output_text}
use xfce4_screensaver.UnlockDialog.Unlocks.Main.{MayUnlock, main-MayUnlock}

-- A line that is one of a program's.
abbrev pub IsPrinted : String → List Output → Type 0
IsPrinted text [] = ⊥
IsPrinted text (o ∷ os) = (text ≡ output_text o) ⊎ IsPrinted text os

-- What may happen to the daemon: what does not unlock the screen by itself, or a line of a dialog.
abbrev pub MayHappen : {Grab : Type 0} → Platform Grab → List Output → DaemonEvent → Type 0
MayHappen P out e =
    KeepsLock P e
    ⊎ ((id : ℕ) × (text : String) × (e ≡ manager_event (dialog_output id (line text)))
        × IsPrinted text out)

has_accepted-head :
    (o : Output) (os : List Output)
    → has_accepted (o ∷ os) ≡ false
    → (o ≢ report accepted) × (has_accepted os ≡ false)
unfolding has_accepted
has_accepted-head (window_id id) os e = ((λ bad. cc), e)
has_accepted-head (report cancelled) os e = ((λ bad. cc), e)
has_accepted-head (report accepted) os e = absurd (cc)
has_accepted-head (report auth_failed) os e = ((λ bad. cc), e)
has_accepted-head (report quit_requested) os e = ((λ bad. cc), e)

meaning-response_ok :
    (scan : String → Option ℕ) (o : Output) → o ≢ report accepted → meaning scan o ≢ response_ok
unfolding meaning
meaning-response_ok scan (window_id id) other e = cc
meaning-response_ok scan (report cancelled) other e = cc
meaning-response_ok scan (report accepted) other e = other refl
meaning-response_ok scan (report auth_failed) other e = cc
meaning-response_ok scan (report quit_requested) other e = cc

-- A program that does not accept prints no line that is read so.
refused-IsPrinted :
    (scan : String → Option ℕ) (text : String) (out : List Output)
    → has_accepted out ≡ false
    → IsPrinted text out
    → read_line scan text ≢ response_ok
refused-IsPrinted scan text [] none_accepted printed = elim printed [ ]
refused-IsPrinted scan text (o ∷ os) none_accepted (inl is) =
    let other = meaning-response_ok scan o (has_accepted-head o os none_accepted).0 in
    λ bad. other (ground (arith, is, bad, read_line-output_text scan o))
refused-IsPrinted scan text (o ∷ os) none_accepted (inr later) =
    refused-IsPrinted scan text os (has_accepted-head o os none_accepted).1 later

module _ {Grab : Type 0} (P : Platform Grab) where
  may-KeepsLock :
      (out : List Output) (e : DaemonEvent)
      → has_accepted out ≡ false
      → MayHappen P out e
      → KeepsLock P e
  may-KeepsLock out e none_accepted (inl keeps) = keeps
  may-KeepsLock out e none_accepted (inr (id, text, is, printed)) =
      subst (λ (e : DaemonEvent). KeepsLock P e) (sym is)
        (refused-IsPrinted P.scan_window_id text out none_accepted printed)

  All-KeepsLock :
      (out : List Output) (es : List DaemonEvent)
      → has_accepted out ≡ false
      → All (MayHappen P out) es
      → All (KeepsLock P) es
  All-KeepsLock out [] none_accepted h = tt
  All-KeepsLock out (e ∷ es) none_accepted h =
      (may-KeepsLock out e none_accepted h.0, All-KeepsLock out es none_accepted h.1)

  -- A locked screen is unlocked only by whom PAM accepts. Let a daemon with a locked screen meet, in
  -- any order and any number of times, the lines that a run of the unlock dialog prints, and anything
  -- else but Quit, SetActive(FALSE), Unlock of logind, a request to the manager to deactivate and an
  -- OK of another dialog. If the screen is not locked afterwards, or its deactivation is under way,
  -- then that dialog could not lock, or PAM answered the responses of one of its checks with success.
  pub run-MayUnlock :
      (fuel : ℕ) (ui : Ui) (s : Start) (es : List DaemonEvent) (w : World (Daemon Grab))
      → All (MayHappen P (main fuel ui s).1) es
      → LockedDaemon w
      → ¬ LockedDaemon (run P es w)
      → MayUnlock ui s
  run-MayUnlock fuel ui s es w may locked unlocked =
      elim (Bool-cases (has_accepted (main fuel ui s).1)) [
        | inl said ↦ main-MayUnlock fuel ui s said
        | inr silent ↦ absurd (
            unlocked
              (run-LockedDaemon P es w (All-KeepsLock (main fuel ui s).1 es silent may) locked))
      ]
