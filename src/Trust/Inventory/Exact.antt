-- ===== src/Trust/Inventory/Exact.antt =====
-- The text that a signature covers determines the files of a package.
use weft_os.Base.{◌≡◌, Bool, Text, All, Result, ok}
use weft_os.Base.Disk.{Disk}
use weft_os.Trust.{Crypto}
use weft_os.Trust.Inventory.{Entries, Failure}
use weft_os.Trust.Inventory.Lines.{CryptoLaws, Clean}

module _ {Key Signature : Type 0} (c : Crypto Key Signature) (laws : CryptoLaws c)
    (is_utf8 : Text → Bool) (fs : Disk) where
  -- What a step collects is clean when what it starts from is.
  abbrev Keeps : (Text → Entries → Result Failure Entries) → Type 0
  Keeps deeper =
      (path : Text) (es fs : Entries) → All Clean es → deeper path es ≡ ok fs → All Clean fs
