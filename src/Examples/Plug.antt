-- ===== src/Examples/Plug.antt =====
-- The theorems on the window of the unlock dialog (src/gs-lock-plug.c) at concrete events.
use xfce4_screensaver.Base.{
  true, false, none, some, [], ◌∷◌, ◌++◌, String, str_append, str_eq, ◌≡◌, refl,
}
use xfce4_screensaver.LockPlug.{
  KeyEvent, Plug, Toolkit, Response, gs_lock_plug_set_sensitive, gs_lock_plug_enable_prompt,
}
use xfce4_screensaver.LockPlug.Run.{
  key_press, cancel_clicked, switch_clicked, icon_press, cancel_timer, response_timer,
  keymap_changed, handle, gs_lock_plug_run,
}
use xfce4_screensaver.LockPlug.Switch.{Options, gs_lock_plug_init, gs_lock_plug_new}
use xfce4_screensaver.LockPlug.Typing.{press_all, enable_prompt-press_all}
use xfce4_screensaver.LockPlug.Timers.{enable_prompt-answered}
use xfce4_screensaver.LockPlug.Labels.{IsLabelled}
use xfce4_screensaver.LockPlug.Labels.Handled.{run-IsLabelled}
use xfce4_screensaver.LockPlug.Labels.Fresh.{new-IsLabelled}

abbrev pub toolkit : Toolkit
toolkit = record {
  type_key = λ k s. str_append s k.text;
  locale_from_utf8 = λ s. some s;
  is_utf8 = λ s. true;
  is_running = λ name. str_eq name "lightdm";
}

abbrev pub key : String → KeyEvent
key text = record { is_escape = false; text = text }

abbrev pub options : Options
options = record {
  logout_enabled = false;
  logout_command = none;
  switch_enabled = false;
  status_message = some "Back soon";
  monitor_index = 1;
}

abbrev fresh : Plug
fresh = gs_lock_plug_new toolkit options gs_lock_plug_init

-- An entry that is not ready.
abbrev insensitive : Plug
insensitive = gs_lock_plug_set_sensitive false fresh

insensitive_entry : insensitive.entry_sensitive ≡ false
unfolding gs_lock_plug_set_sensitive
insensitive_entry = refl

enable_prompt-press_all_example :
    ((gs_lock_plug_enable_prompt toolkit "Code:" true
        (press_all toolkit (key "a" ∷ key "b" ∷ []) insensitive)).entry_text
      ≡ (press_all toolkit
          (key "a" ∷ key "b" ∷ [])
          (gs_lock_plug_enable_prompt toolkit "Code:" true insensitive)).entry_text)
    × ((gs_lock_plug_enable_prompt toolkit "Code:" true
          (press_all toolkit (key "a" ∷ key "b" ∷ []) insensitive)).key_events
        ≡ [])
enable_prompt-press_all_example =
    enable_prompt-press_all toolkit "Code:" true (key "a" ∷ key "b" ∷ []) insensitive
      insensitive_entry (refl, (refl, tt))

enable_prompt-answered_example :
    (r : Response) × ((gs_lock_plug_run
        (handle toolkit "Time has expired.")
        ((key_press (key "a") ∷ switch_clicked ∷ []) ++ (cancel_timer ∷ response_timer ∷ []))
        (gs_lock_plug_enable_prompt toolkit "Code:" true fresh)).1
      ≡ some r)
enable_prompt-answered_example =
    enable_prompt-answered toolkit "Time has expired." "Code:" true
      (key_press (key "a") ∷ switch_clicked ∷ []) fresh

run-IsLabelled_example :
    IsLabelled
      (gs_lock_plug_run
        (handle toolkit "Time has expired.")
        (keymap_changed true ∷ icon_press true ∷ cancel_timer ∷ cancel_clicked ∷ [])
        fresh).0
run-IsLabelled_example =
    run-IsLabelled toolkit "Time has expired."
      (keymap_changed true ∷ icon_press true ∷ cancel_timer ∷ cancel_clicked ∷ []) fresh
      (new-IsLabelled toolkit options)
