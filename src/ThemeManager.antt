-- ===== src/ThemeManager.antt =====
-- src/gs-theme-manager.c: the themes of the menu, and the command of a theme, which is given out only if
-- its program lies in one of the known directories. The menu, the file system and GLib's functions on
-- paths and commands are parameters.
pub mod Known
use xfce4_screensaver.Base.{
  Bool, true, false, ◌&&◌, not, Option, none, some, List, [], ◌∷◌, String, str_append, str_eq,
  if◌then◌else◌,
}

-- The file system, and GLib's g_path_is_absolute, g_path_get_dirname, g_build_filename,
-- g_shell_parse_argv, and the removal of the suffix ".desktop" by g_strrstr and g_strndup.
pub record Files : Type 0 where
  pub is_executable : String → Bool
  pub is_dir : String → Bool
  pub path_is_absolute : String → Bool
  pub path_get_dirname : String → String
  pub build_filename : String → String → String
  pub shell_parse_argv : String → Option (String × List String)
  pub without_suffix : String → String

-- An item of the menu: its name, its command and the id of its desktop file.
pub record MenuItem : Type 0 where
  pub name : String
  pub command : String
  pub desktop_id : Option String

-- _GSThemeInfo; the count of references is left out.
pub record ThemeInfo : Type 0 where
  pub name : String
  pub exec : String
  pub file_id : String

-- A program that may be run.
unfoldable pub may_run : Files → String → Bool
may_run files path = files.is_executable path && not (files.is_dir path)

-- The loops of find_command over the known directories.
unfoldable pub find_absolute : Files → String → String → List String → Option String
unfolding may_run
find_absolute files command dirname [] = none
find_absolute files command dirname (l ∷ ls) =
    let rest = find_absolute files command dirname ls in
    if str_eq dirname l then (if may_run files command then some command else rest) else rest

unfoldable pub find_relative : Files → String → List String → Option String
unfolding may_run
find_relative files command [] = none
find_relative files command (l ∷ ls) =
    let rest = find_relative files command ls in
    let path = files.build_filename l command in if may_run files path then some path else rest

unfoldable pub find_command : Files → List String → String → Option String
unfolding find_absolute find_relative
find_command files locations command =
    if files.path_is_absolute command
    then find_absolute files command (files.path_get_dirname command) locations
    else find_relative files command locations

unfoldable pub check_command : Files → List String → String → Bool
unfolding find_command
check_command files locations command = elim (files.shell_parse_argv command) [
  | none ↦ false
  | some argv ↦ elim (find_command files locations argv.0) [ none ↦ false | some path ↦ true ]
]

unfoldable pub gs_theme_info_get_exec : Files → List String → ThemeInfo → Option String
unfolding check_command
gs_theme_info_get_exec files locations info =
    if check_command files locations info.exec then some info.exec else none

unfoldable pub gs_theme_info_new_from_garcon_menu_item : Files → String → MenuItem → ThemeInfo
gs_theme_info_new_from_garcon_menu_item files id item = record {
  name = item.name;
  exec = item.command;
  file_id = files.without_suffix id;
}

unfoldable pub find_info_for_id : Files → String → List MenuItem → Option ThemeInfo
unfolding gs_theme_info_new_from_garcon_menu_item
find_info_for_id files id [] = none
find_info_for_id files id (item ∷ items) =
    let rest = find_info_for_id files id items in
    elim item.desktop_id [
      | none ↦ rest
      | some file_id ↦
          if str_eq file_id id
          then some (gs_theme_info_new_from_garcon_menu_item files file_id item)
          else rest
    ]

unfoldable pub gs_theme_manager_lookup_theme_info :
    Files → List MenuItem → String → Option ThemeInfo
unfolding find_info_for_id
gs_theme_manager_lookup_theme_info files menu theme =
    find_info_for_id files (str_append theme ".desktop") menu

-- What C's printf makes of a text that may be NULL.
unfoldable pub formatted : Option String → String
formatted none = "(null)"
formatted (some text) = text

-- The command line of gs_job_set_theme (src/gs-job.c) for a theme, whose arguments the settings have; it
-- is the parameter `theme_command` of a job.
unfoldable pub theme_command :
    Files → List String → List MenuItem → (String → String) → String → Option String
unfolding gs_theme_manager_lookup_theme_info gs_theme_info_get_exec formatted
theme_command files locations menu arguments theme =
    elim (gs_theme_manager_lookup_theme_info files menu theme) [
      | none ↦ none
      | some info ↦ some (
          str_append (formatted (gs_theme_info_get_exec files locations info))
            (str_append " " (arguments theme)))
    ]
