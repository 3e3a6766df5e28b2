-- ===== src/SessionGrants/Preopen.antt =====
-- The `--preopen` arguments that weft-appd writes and weft-runtime reads.
use weft_os.Base.{◌≡◌, refl, true, false, is_empty, all, starts_with, ok}
use weft_os.Capability.{Access, read, read_write}
use weft_os.RuntimeGrants.{parse_preopen, access_of}
use weft_os.RuntimeGrants.Arguments.{no_colon, access_of-ro, access_of-rw, parse_preopen-joined}
use weft_os.SessionGrants.{GrantedDir, preopen_arg, preopen_mode}

no_colon_mode : (a : Access) → no_colon (preopen_mode a) ≡ true
unfolding preopen_mode all
no_colon_mode read = refl
no_colon_mode read_write = refl

access_of-mode : (a : Access) → access_of (preopen_mode a) ≡ ok a
unfolding preopen_mode
access_of-mode read = access_of-ro
access_of-mode read_write = access_of-rw

-- The runtime reads back the directory, the place and the mode that weft-appd put in a `--preopen`
-- argument, when the host path is not empty and the guest path is absolute and has no colon.
pub parse_preopen-preopen_arg :
    (dir : GrantedDir)
    → is_empty dir.host_path ≡ false
    → starts_with b'/' dir.guest ≡ true
    → no_colon dir.guest ≡ true
    → parse_preopen (preopen_arg dir)
      ≡ ok (record { host_path = dir.host_path; guest = dir.guest; access = dir.access })
unfolding preopen_arg
parse_preopen-preopen_arg dir host_path guest colons =
    parse_preopen-joined dir.host_path dir.guest (preopen_mode dir.access) dir.access colons
      (no_colon_mode dir.access) (access_of-mode dir.access) host_path guest
