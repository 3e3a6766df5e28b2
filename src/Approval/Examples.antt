-- ===== src/Approval/Examples.antt =====
-- An update that asks for one more capability.
use weft_os.Base.{◌≡◌, true, List, [], ◌∷◌, Text, codes, text_eq, any}
use weft_os.Approval.{needs_approval, holds, unapproved, read_approved, write_approved}
use weft_os.Approval.Record.{unapproved-write_approved}

abbrev old_version : List Text
old_version = codes "sys:notifications" ∷ codes "fs:rw:app-data" ∷ []

abbrev new_version : List Text
new_version = codes "net:fetch:*" ∷ codes "sys:notifications" ∷ []

unapproved-write_approved_example :
    holds
      (codes "net:fetch:*")
      (unapproved new_version (read_approved (write_approved old_version)))
    ≡ true
unfolding any text_eq needs_approval weft_os.Capability.from_str
unapproved-write_approved_example =
    unapproved-write_approved (codes "net:fetch:*") old_version new_version
