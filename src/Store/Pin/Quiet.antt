-- ===== src/Store/Pin/Quiet.antt =====
-- About `try_claim` and what is not a lock.
use weft_os.Base.{◌≡◌, refl, ◌∙◌, Text, Result, ok, err}
use weft_os.Base.Disk.{ErrorKind}
use weft_os.Store.Pin.{
  TryLockError, would_block, lock_error, Locks, claimed, claim_opened, try_claim,
}

module _ {ℓ κ} {S File : Type ℓ} {V : Type κ} (k : Locks S File) (others : S → S) (view : S → V)
    (quiet : (s : S) → view (others s) ≡ view s)
    (try_lock-same : (s : S) (file : File) → view (k.try_lock s file).0 ≡ view s)
    (close-same : (s : S) (file : File) → view (k.close s file) ≡ view s) where
  claimed-same :
      (file : File) (s : S) (answer : Result TryLockError (Unit {0}))
      → view (claimed k file s answer).0 ≡ view s
  unfolding claimed
  claimed-same file s (ok done) = refl
  claimed-same file s (err would_block) = close-same s file
  claimed-same file s (err (lock_error e)) = close-same s file

  claim_opened-same :
      (s : S) (opened : Result ErrorKind File) → view (claim_opened k others s opened).0 ≡ view s
  unfolding claim_opened
  claim_opened-same s (err e) = refl
  claim_opened-same s (ok file) = claimed-same file _ _ ∙ (try_lock-same (others s) file ∙ quiet s)

  pub try_claim-same : (s : S) (path : Text) → view (try_claim k others s path).0 ≡ view s
  unfolding try_claim
  try_claim-same s path = claim_opened-same s (k.open_file s path)
