-- ===== src/Package/Home.antt =====
-- Where the data of the user lies, by the environment: `var` is `std::env::var_os`.
use weft_os.Base.{Option, none, some, Text, codes, starts_with, if◌then◌else◌}
use weft_os.Base.Paths.{join}

-- `filter(|dir| dir.is_absolute())`
absolute_dir : Option Text → Option Text
absolute_dir none = none
absolute_dir (some dir) = if starts_with b'/' dir then some dir else none

unfoldable pub home_dir : (Text → Option Text) → Option Text
unfolding absolute_dir
home_dir var = absolute_dir (var (codes "HOME"))

unfoldable pub data_home : (Text → Option Text) → Option Text
unfolding absolute_dir
data_home var = elim (absolute_dir (var (codes "XDG_DATA_HOME"))) [
  | some dir ↦ some dir
  | none ↦ elim (absolute_dir (var (codes "HOME"))) [
    | some home ↦ some (join home (codes ".local/share"))
    | none ↦ none
  ]
]
