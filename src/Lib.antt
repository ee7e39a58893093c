-- ===== src/Lib.antt =====
-- A model of the daemon of Xfce Screensaver: what decides whether the screen is shown, locked and
-- unlocked.
--
-- The parts and where they are modelled. Paths are those of the repository.
--   Prefs            src/gs-prefs.c, src/gs-prefs.h: the settings, the setters with their bounds, the
--                    choice of a theme; Prefs.Keys has gs_prefs_load_from_settings and
--                    key_changed_cb over an Xfconf channel, which is a parameter.
--   Job              src/gs-job.c: the child that draws a theme. `Job` is GSJobPrivate with the list
--                    of the process calls made so far; `start`, `stop`, `suspend`, `finalize`,
--                    `set_widget` and `command_watch` are the functions of these names.
--   Window           src/gs-window.c: GSWindowPrivate and the functions that change one window;
--                    Window.Dialog has the unlock dialog and the on-screen keyboard as children,
--                    and the lines that the dialog writes.
--   SessionLock      src/gs-session-lock-manager.c: the lock object of a Wayland compositor.
--   Grab             src/gs-grab.c: the record of operations that the manager calls, with its laws;
--                    Grab.Seat implements it over the answers of an X server.
--   Manager          src/gs-manager.c: GSManagerPrivate, which owns the windows and the jobs. Jobs,
--                    Locker (lock flag, timers, throttle, cycle, status message), Dialogs, Windows
--                    and Saver (activation and deactivation) have its functions, and Step puts them
--                    together as a transition for each event of the main loop.
--   Listener         src/gs-listener.c: the base class of the listeners to idleness; ListenerX11 and
--                    ListenerWayland are its subclasses in src/gs-listener-x11.c and
--                    src/gs-listener-wayland.c.
--   ListenerDbus     src/gs-listener-dbus.c: the inhibitors, the throttlers and the active flag;
--                    Activation, Refs (the tables), Messages (the session bus), Logind (the system
--                    bus) and Bus (the connections and the filters) have its functions, over a
--                    record of the handlers of its signals.
--   Monitor          src/gs-monitor.c: GSMonitorPrivate, which owns the manager and the listeners and
--                    connects their signals; it fills the record of handlers, and `step` is a
--                    transition of the whole daemon for each event of the main loop.
--   AuthHelper       src/gs-auth-helper.c, with Subprocs for src/subprocs.c; AuthPam for
--                    src/gs-auth-pam.c, and Setuid for src/setuid.c: how the unlock dialog, a program
--                    of its own, has the password checked.
--   LockPlug         src/gs-lock-plug.c: GSLockPlugPrivate with the state of the widgets that the
--                    source sets; Run has its handlers as events and gs_lock_plug_run, Switch the
--                    switch of users and the construction, Expand the text of a label.
--   UnlockDialog     src/xfce4-screensaver-dialog.c: the handler of PAM's messages, which AuthPam
--                    calls through the record Client; Program has the checks and main, Lines the
--                    lines that are printed, which Window.Dialog reads.
--   Unlocking        the daemon of Monitor reading the lines of the dialog of UnlockDialog.
--   Command          src/xfce4-screensaver-command.c: do_command, whose messages a bus, which is a
--                    parameter, brings to the D-Bus listener or not, and the replies in time or not.
--   ThemeManager     src/gs-theme-manager.c: the lookup of a theme and the check of its command, which
--                    fills the parameter theme_command of a job.
-- The signals of a window are handled by its manager: a window function that emits one returns
-- whether it does, and the function of Manager that calls it runs the handler at that point, as
-- GObject does. Windows are named by numbers, and the tables of GLib are lists of entries.
--
-- What the source calls but does not define is a parameter: the answers of Xfconf, of process
-- spawning, of the theme manager and of the random numbers (Channel, Env, Platform), the events of
-- the compositor during a round trip, and the answers of the X server. The loops of the grab run on
-- fuel that exceeds the number of answers that may still be refusals, each failing round takes one,
-- and every other loop runs over a list. Integers that the source keeps in a `guint` are reduced
-- modulo 2 ^ 32. The handlers of the monitor call each other through an activation of the saver; their
-- depth is bounded by fuel, and Monitor.Fuel is about why one level is enough. The cookies are drawn
-- from a list of numbers; a call whose numbers are all taken has no answer yet. The unlock dialog
-- gets the events of each message of PAM as lists, an empty rest meaning that its window is unmapped,
-- and its checks run on fuel, of which five are enough; PAM holds one conversation in a check.
--
-- Examples applies the theorems at concrete settings, jobs, windows, managers and daemons.
--
-- Not modelled: what GTK draws and how it places widgets, the pointer and the input focus, debug
-- output, finalizers other than that of a job, a display without monitors, and the parts of the
-- repository outside the files above: the preferences program and the savers; of the unlock
-- dialog, the pictures, the clock and the layout of its window; of the theme manager, the
-- extension of PATH and the loading of the menu. Of the buses, the search for the session of
-- logind, the texts of the replies and what a build with ConsoleKit adds are left out.
mod Base
pub mod Prefs
pub mod Job
pub mod Window
pub mod SessionLock
pub mod Grab
pub mod Manager
pub mod Listener
pub mod ListenerWayland
pub mod ListenerX11
pub mod ListenerDbus
pub mod Monitor
pub mod Subprocs
pub mod AuthHelper
pub mod AuthPam
pub mod Setuid
pub mod LockPlug
pub mod UnlockDialog
pub mod Unlocking
pub mod Command
pub mod ThemeManager
pub mod Examples
