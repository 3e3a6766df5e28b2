-- ===== src/Store/Pin.antt =====
-- The locks on a package directory: a session's shared one, and the exclusive one of a package
-- operation. Other processes may act between the calls of one function.
pub mod Held
pub mod Quiet
use weft_os.Base.{
  ◌≡◌, ◌≢◌, refl, ◌⊎◌, inl, inr, ℕ, Bool, true, false, ◌&&◌, ◌==◌, Bool-cases, &&-eq-true, Option,
  none, some, Text, arith, Result, ok, err, is_ok, if◌then◌else◌,
}
use weft_os.Base.Disk.{ErrorKind}

-- `std::fs::TryLockError`
pub data TryLockError : Type 0 where
  would_block : TryLockError
  lock_error : ErrorKind → TryLockError

-- `dev` and `ino` of a file's metadata
abbrev pub Inode : Type 0
Inode = ℕ × ℕ

-- `File` and its locks. `identity` is that of an open file, `named_identity` that of the entry at
-- a path, a link not followed. `held` says whether some open file has a shared lock on the inode.
pub record Locks {ℓ} (S File : Type ℓ) : Type ℓ where
  pub open_file : S → Text → Result ErrorKind File
  pub try_lock_shared : S → File → S × Result TryLockError (Unit {0})
  pub try_lock : S → File → S × Result TryLockError (Unit {0})
  pub identity : File → Result ErrorKind Inode
  pub named_identity : S → Text → Result ErrorKind Inode
  pub close : S → File → S
  pub held : S → Inode → Bool

pub data PinError : Type 0 where
  pin_io : ErrorKind → PinError
  being_changed changed : Text → PinError

module _ {ℓ} {S File : Type ℓ} (k : Locks S File) where
  same_inode : Result ErrorKind Inode → Result ErrorKind Inode → Result ErrorKind Bool
  same_inode (err e) named = err e
  same_inode (ok opened) (err e) = err e
  same_inode (ok opened) (ok named) = ok ((opened.0 == named.0) && (opened.1 == named.1))

  unfoldable pub same_file : S → File → Text → Result ErrorKind Bool
  unfolding same_inode
  same_file s file path = same_inode (k.identity file) (k.named_identity s path)

  -- the end of `pin`, with the lock taken; a file that is dropped is closed
  checked : Text → File → S → Result ErrorKind Bool → S × Result PinError File
  checked dir file s (err e) = (k.close s file, err (pin_io e))
  checked dir file s (ok true) = (s, ok file)
  checked dir file s (ok false) = (k.close s file, err (changed dir))

  -- `pin` after the attempt to take the lock
  locked : (S → S) → Text → File → S → Result TryLockError (Unit {0}) → S × Result PinError File
  unfolding checked
  locked others dir file s (ok done) = checked dir file (others s) (same_file (others s) file dir)
  locked others dir file s (err would_block) = (k.close s file, err (being_changed dir))
  locked others dir file s (err (lock_error e)) = (k.close s file, err (pin_io e))

  opened : (S → S) → S → Text → Result ErrorKind File → S × Result PinError File
  unfolding locked
  opened others s dir (err e) = (s, err (pin_io e))
  opened others s dir (ok file) =
      let (s', answer) = k.try_lock_shared (others s) file in locked others dir file s' answer

  -- `others` is what other processes do between two calls
  unfoldable pub pin : (S → S) → S → Text → S × Result PinError File
  unfolding opened
  pin others s dir = opened others s dir (k.open_file s dir)

  claimed : File → S → Result TryLockError (Unit {0}) → S × Result ErrorKind (Option File)
  claimed file s (ok done) = (s, ok (some file))
  claimed file s (err would_block) = (k.close s file, ok none)
  claimed file s (err (lock_error e)) = (k.close s file, err e)

  claim_opened : (S → S) → S → Result ErrorKind File → S × Result ErrorKind (Option File)
  unfolding claimed
  claim_opened others s (err e) = (s, err e)
  claim_opened others s (ok file) =
      let (s', answer) = k.try_lock (others s) file in claimed file s' answer

  unfoldable pub try_claim : (S → S) → S → Text → S × Result ErrorKind (Option File)
  unfolding claim_opened
  try_claim others s dir = claim_opened others s (k.open_file s dir)

  -- What `flock` documents. `others` closes no file that has a shared lock.
  pub record Lawful (others : S → S) : Type ℓ where
    pub held-others : (s : S) (i : Inode) → k.held s i ≡ true → k.held (others s) i ≡ true
    pub try_lock_shared-held :
        (s : S) (file : File) (i : Inode)
        → is_ok (k.try_lock_shared s file).1 ≡ true
        → k.identity file ≡ ok i
        → k.held (k.try_lock_shared s file).0 i ≡ true
    pub try_lock-held :
        (s : S) (file : File) (i : Inode)
        → k.identity file ≡ ok i
        → k.held s i ≡ true
        → is_ok (k.try_lock s file).1 ≡ false
