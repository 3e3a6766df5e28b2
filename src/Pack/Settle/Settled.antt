-- ===== src/Pack/Settle/Settled.antt =====
-- What is approved after `settle_approval`.
use weft_os.Base.{◌≡◌, Bool, true, false, Option, Text, Result, ok, err, is_ok}
use weft_os.Base.Disk.{ErrorKind}
use weft_os.Approval.{holds, read_approved}
use weft_os.Pack.Settle.{Approvals}

-- whether `c` is approved by a record, an unreadable one counting as none
unfoldable pub approves : Result ErrorKind (Option Text) → Text → Bool
approves (err e) c = false
approves (ok text) c = holds c (read_approved text)

module _ {ℓ} {S : Type ℓ} (a : Approvals S) where
  -- A write that succeeds leaves the record, and one that fails changes nothing.
  pub record Lawful : Type ℓ where
    pub written :
        (s : S) (path : Text) (text : Option Text)
        → is_ok (a.write_record s path text).1 ≡ true
        → a.read_record (a.write_record s path text).0 path ≡ ok text
    pub unwritten :
        (s : S) (path : Text) (text : Option Text)
        → is_ok (a.write_record s path text).1 ≡ false
        → a.read_record (a.write_record s path text).0 path ≡ a.read_record s path
