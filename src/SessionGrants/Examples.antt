-- ===== src/SessionGrants/Examples.antt =====
-- Launches on a machine without documents, and with app data in both places.
use weft_os.Base.{
  ℕ, ◌≡◌, ◌≢◌, refl, Bool, true, List, [], ◌∷◌, Option, none, some, Text, codes, text_eq, arith,
  Result, ok, err, map, ◌||◌, if◌then◌else◌,
}
use weft_os.Capability.{Access, read, read_write, host, Capability}
use weft_os.Capability.{to_string}
use weft_os.Package.{IoKind, Entry, FileSystem}
use weft_os.Package.Memory.{Disk, disk}
use weft_os.RuntimeGrants.{Grants, no_grants, add_all, parse_preopen}
use weft_os.RuntimeGrants.Fetch.{Agrees}
use weft_os.SessionGrants.{
  GrantedDir, preopen_arg, SessionGrants, Refusal, HostDirs, refuse, validate, plan,
}
use weft_os.SessionGrants.Preopen.{parse_preopen-preopen_arg}
use weft_os.SessionGrants.Plan.{plan-Agrees}
use weft_os.SessionGrants.Prepare.{derive}
use weft_os.SessionGrants.Prepare.Refused.{derive-unchanged}

abbrev data_dir : GrantedDir
data_dir = record { host_path = codes "/x/a:b"; guest = codes "/data"; access = read_write }

parse_preopen-preopen_arg_example :
    parse_preopen (preopen_arg data_dir)
    ≡ ok (record { host_path = codes "/x/a:b"; guest = codes "/data"; access = read_write })
unfolding weft_os.Base.starts_with weft_os.Base.all
parse_preopen-preopen_arg_example = parse_preopen-preopen_arg data_dir refl refl refl

abbrev declared : List Text
declared = codes "sys:notifications" ∷ codes "net:fetch:a.example" ∷ codes "fs:rw:app-data" ∷ []

abbrev home_dirs : HostDirs
home_dirs = record { data_home = codes "/x"; home = codes "/h"; documents_path = none }

abbrev session_granted : SessionGrants
session_granted = record {
  dirs =
      record {
        host_path = codes "/x/weft/app-data/a.b.c";
        guest = codes "/data";
        access = read_write;
      }
      ∷ [];
  imports = Capability.notifications ∷ Capability.fetch (host (codes "a.example")) ∷ [];
}

plan-Agrees_example :
    (cs : List Capability) × (validate declared ≡ ok cs)
    × (g : Grants) × (add_all no_grants (map to_string session_granted.imports) ≡ ok g)
    × Agrees g cs (codes "a.example")
unfolding plan validate weft_os.Capability.from_str text_eq weft_os.Base.strip_prefix
    weft_os.Capability.Host.is_host_name weft_os.Base.any weft_os.SessionGrants.grant_dir
    weft_os.Package.app_data_dir weft_os.SessionGrants.capability_eq
plan-Agrees_example =
    plan-Agrees (λ path. true) (codes "a.b.c") declared (ok home_dirs) session_granted
      (some home_dirs) (codes "a.example") refl

abbrev io_words : IoKind → Text
io_words e = codes "error"

abbrev documents_only : List Text
documents_only = codes "fs:read:xdg-documents" ∷ []

abbrev nothing : Disk
nothing path = none

derive-unchanged_example :
    (derive disk io_words (λ path. true) nothing (codes "a.b.c") documents_only (ok home_dirs)).0
    ≡ nothing
unfolding derive plan validate weft_os.Capability.from_str text_eq weft_os.Base.any to_string
derive-unchanged_example =
    derive-unchanged disk io_words (λ path. true) nothing (codes "a.b.c") documents_only
      (ok home_dirs)
      (refuse 403
        (codes "fs:read:xdg-documents requested, but no documents directory is configured"))
      refl (omega arith) (omega arith)

abbrev both : Disk
both path =
    if text_eq path (codes "/h/.local/share/weft/apps/a.b.c/data")
      || text_eq path (codes "/x/weft/app-data/a.b.c")
    then some true
    else none
