-- ===== src/UnlockDialog/Lines.antt =====
-- The lines of src/xfce4-screensaver-dialog.c and their reader in src/gs-window.c.
use xfce4_screensaver.Base.{
  find?-append, ap, Bool, true, false, none, some, arith, ℕ, Option, String, str_append, ◌≡◌, refl,
}
use xfce4_screensaver.UnlockDialog.{
  Report, cancelled, accepted, auth_failed, quit_requested, Output, window_id, report,
}
use xfce4_screensaver.Window.Dialog.{
  Line, notice, response_ok, response_cancel, request_quit, read_line, contains,
}

unfoldable pub report_text : Report → String
report_text cancelled = "RESPONSE=CANCEL\n"
report_text accepted = "RESPONSE=OK\n"
report_text auth_failed = "NOTICE=AUTH FAILED\n"
report_text quit_requested = "REQUEST QUIT\n"

-- What is written to the standard output, with print_id.
unfoldable pub output_text : Output → String
unfolding report_text
output_text (window_id id) = str_append "WINDOW ID=" (str_append id "\n")
output_text (report r) = report_text r

-- What the program means by a line; the number of the window is what C's sscanf reads.
unfoldable pub meaning : (String → Option ℕ) → Output → Line
unfolding output_text
meaning scan (window_id id) = Line.window_id (scan (output_text (window_id id)))
meaning scan (report cancelled) = response_cancel
meaning scan (report accepted) = response_ok
meaning scan (report auth_failed) = notice
meaning scan (report quit_requested) = request_quit

contains-append : (t u : String) → contains (str_append t u) t ≡ true
unfolding contains
contains-append t u =
    ap (λ (o : Option ℕ). elim o as (λ _. Bool) [ none ↦ false | some _ ↦ true ]) (find?-append t u)

read_line-window_id :
    (scan : String → Option ℕ) (text : String)
    → contains text "WINDOW ID=" ≡ true
    → read_line scan text ≡ Line.window_id (scan text)
unfolding read_line
read_line-window_id scan text e = ground arith

read_line-report :
    (scan : String → Option ℕ) (r : Report)
    → read_line scan (output_text (report r)) ≡ meaning scan (report r)
unfolding read_line output_text meaning report_text contains
read_line-report scan cancelled = refl
read_line-report scan accepted = refl
read_line-report scan auth_failed = refl
read_line-report scan quit_requested = refl

-- The screensaver reads each line of the dialog as the dialog means it: the reports as what they are,
-- and the line with the window's id as one, whatever the id is.
pub read_line-output_text :
    (scan : String → Option ℕ) (o : Output) → read_line scan (output_text o) ≡ meaning scan o
unfolding output_text meaning
read_line-output_text scan (window_id id) =
    read_line-window_id scan (output_text (window_id id))
      (contains-append "WINDOW ID=" (str_append id "\n"))
read_line-output_text scan (report r) = read_line-report scan r
