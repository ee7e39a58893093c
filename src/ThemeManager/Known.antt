-- ===== src/ThemeManager/Known.antt =====
-- Only a program in a known directory is given out as the command of a theme
-- (src/gs-theme-manager.c).
use xfce4_screensaver.Base.{◌≡◌, ◌⊎◌, true, some, List, [], ◌∷◌, String}
use xfce4_screensaver.ThemeManager.{Files, MenuItem, may_run}

-- Membership by recursion.
abbrev pub IsIn : String → List String → Type 0
IsIn x [] = ⊥
IsIn x (y ∷ ys) = (x ≡ y) ⊎ IsIn x ys

-- A program that may be run, found for a word of a command in one of the directories.
pub record Found (files : Files) (locations : List String) (command path : String) : Type 0 where
  pub runs : may_run files path ≡ true
  pub location : String
  pub known : IsIn location locations
  pub there :
      ((path ≡ command) × (files.path_get_dirname command ≡ location))
      ⊎ (path ≡ files.build_filename location command)

-- The first word of a command is found.
pub record Checked (files : Files) (locations : List String) (command : String) : Type 0 where
  pub word : String
  pub words : List String
  pub parsed : files.shell_parse_argv command ≡ some (word, words)
  pub path : String
  pub found : Found files locations word path

-- An item of the menu with the id and the command.
unfoldable pub HasItem : String → String → List MenuItem → Type 0
HasItem id command [] = ⊥
HasItem id command (item ∷ items) =
    ((item.desktop_id ≡ some id) × (item.command ≡ command)) ⊎ HasItem id command items
