-- ===== src/Gui/Icons.antt =====
-- gui/processes.c: `lookup_icon`. The applications of the desktop and the files under `/proc` are
-- not part of the program: they are a parameter.
use pidnl.Base.{
  ℕ, ℤ, Bool, true, false, ◌||◌, ◌&&◌, List, [], ◌∷◌, Text, text_eq, ◌==◌, Option, none, some,
  if◌then◌else◌,
}

-- A `GAppInfo`: its executable, its icon, and the key X-Flatpak of one that has a desktop file.
pub record AppInfo : Type 0 where
  pub executable : Option Text
  pub icon : Option ℕ
  pub flatpak_id : Option Text

-- `g_app_info_get_all`, and `g_file_get_contents` on `/proc/<pid>/cgroup`.
pub record Desktop : Type 0 where
  pub all_apps : List AppInfo
  pub cgroup_of : ℤ → Option Text

-- The icon of an application, or the themed icon application-x-executable.
pub data Icon : Type 0 where
  app_icon : ℕ → Icon
  themed_icon : Icon

-- `strrchr(path, '/') + 1`, if there is a slash.
unfoldable pub after_slash : Text → Option Text
after_slash [] = none
after_slash (c ∷ path) = elim (after_slash path) [
  | some base ↦ some base
  | none ↦ if c == b'/' then some path else none
]

unfoldable pub base_name : Text → Text
unfolding after_slash
base_name path = elim (after_slash path) [ some base ↦ base | none ↦ path ]

unfoldable pub is_prefix : Text → Text → Bool
is_prefix [] text = true
is_prefix (c ∷ s) [] = false
is_prefix (c ∷ s) (d ∷ text) = c == d && is_prefix s text

-- `strstr(text, s) != NULL`
unfoldable pub has_substring : Text → Text → Bool
unfolding is_prefix
has_substring s [] = is_prefix s []
has_substring s (c ∷ text) = is_prefix s (c ∷ text) || has_substring s text

abbrev pub icon_of : AppInfo → Icon
icon_of info = elim info.icon [ none ↦ themed_icon | some icon ↦ app_icon icon ]

-- The test of the first loop.
unfoldable pub runs_as : Text → Text → AppInfo → Bool
unfolding base_name text_eq
runs_as exe_path process_name info = elim info.executable [
  | none ↦ false
  | some exec ↦
      text_eq (base_name exe_path) (base_name exec) || text_eq process_name (base_name exec)
]

-- The test of the second loop.
unfoldable pub runs_in : Text → AppInfo → Bool
unfolding has_substring
runs_in cgroup info = elim info.flatpak_id [ none ↦ false | some id ↦ has_substring id cgroup ]

-- The first application that passes a test.
unfoldable pub find_app : (AppInfo → Bool) → List AppInfo → Option AppInfo
find_app test [] = none
find_app test (info ∷ infos) =
    let rest = find_app test infos in if test info then some info else rest

-- The second loop, over the text of the file.
unfoldable pub icon_by_cgroup : List AppInfo → Option Text → Icon
unfolding find_app runs_in
icon_by_cgroup apps none = themed_icon
icon_by_cgroup apps (some cgroup) = elim (find_app (runs_in cgroup) apps) [
  | some info ↦ icon_of info
  | none ↦ themed_icon
]

-- The callers pass no null pointer.
unfoldable pub lookup_icon : Desktop → Text → Text → ℤ → Icon
unfolding find_app runs_as icon_by_cgroup
lookup_icon desktop exe_path process_name pid =
    elim (find_app (runs_as exe_path process_name) desktop.all_apps) [
      | some info ↦ icon_of info
      | none ↦ icon_by_cgroup desktop.all_apps (desktop.cgroup_of pid)
    ]
