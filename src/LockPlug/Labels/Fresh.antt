-- ===== src/LockPlug/Labels/Fresh.antt =====
-- What a new dialog shows (src/gs-lock-plug.c).
use xfce4_screensaver.Base.{Bool, true, false, ◌||◌, ◌==◌, if_elim, not, refl}
use xfce4_screensaver.LockPlug.{toggle_infobar_visibility, Plug, Toolkit}
use xfce4_screensaver.LockPlug.Switch.{
  has_text, is_equal, Options, gs_lock_plug_set_logout_enabled, gs_lock_plug_set_monitor_index,
  gs_lock_plug_set_logout_command, gs_lock_plug_set_status_message, gs_lock_plug_set_switch_enabled,
  gs_lock_plug_init, gs_lock_plug_new,
}
use xfce4_screensaver.LockPlug.Labels.{IsLabelled, toggle-IsLabelled}

set_switch_enabled-IsLabelled :
    (t : Toolkit) (enabled : Bool) (p : Plug)
    → IsLabelled p
    → IsLabelled (gs_lock_plug_set_switch_enabled t enabled p)
unfolding gs_lock_plug_set_switch_enabled
set_switch_enabled-IsLabelled t enabled p h =
    let R = IsLabelled in
    let set : (shown : Bool)
        → IsLabelled (record p { switch_enabled = enabled; switch_shown = shown }) =
      λ shown. record {
        infobar = h.infobar;
        status = h.status;
        prompt = h.prompt;
        caps = h.caps;
        message = h.message;
        icon = h.icon;
      } in
    if_elim R (is_equal p.switch_enabled enabled) (λ _. h)
      λ _.
        if_elim R (not enabled) (λ _. set false)
          λ _.
            if_elim R (t.is_running "mdm") (λ _. set true)
              λ _.
                if_elim R (t.is_running "gdm" || t.is_running "gdm3" || t.is_running "gdm-binary")
                  (λ _. set true)
                  λ _.
                    if_elim R (t.is_running "lightdm" || t.is_running "sddm") (λ _. set true)
                      (λ _. set false)

set_logout_enabled-IsLabelled :
    (enabled : Bool) (p : Plug)
    → IsLabelled p
    → IsLabelled (gs_lock_plug_set_logout_enabled enabled p)
unfolding gs_lock_plug_set_logout_enabled
set_logout_enabled-IsLabelled enabled p h =
    if_elim IsLabelled (is_equal p.logout_enabled enabled) (λ _. h)
      (λ _. record {
        infobar = h.infobar;
        status = h.status;
        prompt = h.prompt;
        caps = h.caps;
        message = h.message;
        icon = h.icon;
      })

init-IsLabelled : IsLabelled gs_lock_plug_init
unfolding gs_lock_plug_init toggle_infobar_visibility has_text
init-IsLabelled = record {
  infobar = refl;
  status = refl;
  prompt = refl;
  caps = refl;
  message = refl;
  icon = refl;
}

-- A new window has its labels so.
pub new-IsLabelled :
    (t : Toolkit) (o : Options) → IsLabelled (gs_lock_plug_new t o gs_lock_plug_init)
unfolding gs_lock_plug_new gs_lock_plug_set_logout_command gs_lock_plug_set_status_message
    gs_lock_plug_set_monitor_index
new-IsLabelled t o =
    let R = IsLabelled in
    let logout = set_logout_enabled-IsLabelled o.logout_enabled gs_lock_plug_init init-IsLabelled in
    let command =
      gs_lock_plug_set_logout_command o.logout_command
        (gs_lock_plug_set_logout_enabled o.logout_enabled gs_lock_plug_init) in
    let switched = set_switch_enabled-IsLabelled t o.switch_enabled command (record {
      infobar = logout.infobar;
      status = logout.status;
      prompt = logout.prompt;
      caps = logout.caps;
      message = logout.message;
      icon = logout.icon;
    }) in
    let plug = gs_lock_plug_set_switch_enabled t o.switch_enabled command in
    let told =
      toggle-IsLabelled
        (record plug {
          status_message = o.status_message;
          status_shown = has_text o.status_message;
        })
        refl switched.prompt switched.caps switched.message switched.icon in
    let with_status = gs_lock_plug_set_status_message o.status_message plug in
    if_elim R (with_status.monitor_index == o.monitor_index) (λ _. told)
      (λ _. record {
        infobar = told.infobar;
        status = told.status;
        prompt = told.prompt;
        caps = told.caps;
        message = told.message;
        icon = told.icon;
      })
