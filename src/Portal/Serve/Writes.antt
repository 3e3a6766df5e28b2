-- ===== src/Portal/Serve/Writes.antt =====
-- Which requests change anything.
use weft_os.Base.{◌≡◌, ℕ, ◌⊎◌, true, List, Text, Result, ok}
use weft_os.Portal.{Request, write_file, Response, Root, locate}
use weft_os.Portal.Kernel.{Errno, Kernel}
use weft_os.Portal.Files.{write}

module _ {S Fd : Type 0} (k : Kernel S Fd) (errno_text : Errno → Text) (stamp : ℕ → Text)
    (encode : Text → Text) (decode : Text → Result Text Text) where
  -- A request that changes the state is a write, to a directory that is granted for writing.
  abbrev pub WritesOnly : List (Root Fd) → S × ℕ → Request → (S × ℕ) × Response → Type 0
  WritesOnly roots st request z =
      (z.0 ≡ st)
      ⊎ ((path : Text) × (data_b64 : Text) × (root : Root Fd) × (names : List Text) × (bytes : Text)
          × (request ≡ write_file path data_b64)
          × (locate roots path true ≡ ok (root, names))
          × (root.writable ≡ true)
          × (decode data_b64 ≡ ok bytes)
          × (z.0 ≡ (write k errno_text stamp st root names bytes).0))
