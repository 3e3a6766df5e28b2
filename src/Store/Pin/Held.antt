-- ===== src/Store/Pin/Held.antt =====
-- A pinned directory is not claimed.
use weft_os.Base.{
  ◌≡◌, ◌≢◌, subst, refl, sym, ap, ℕ, zero, suc, Bool, true, false, ◌&&◌, ◌==◌, some, Text, arith,
  Result, ok, err, is_ok, ok-injective,
}
use weft_os.Base.Disk.{ErrorKind}
use weft_os.Store.Pin.{
  TryLockError, would_block, lock_error, Inode, Locks, same_inode, same_file, checked, locked, pin,
  claimed, opened, claim_opened, try_claim, Lawful,
}

abbrev pub times {ℓ} : {S : Type ℓ} → ℕ → (S → S) → S → S
times zero f s = s
times (suc n) f s = times n f (f s)

module _ {ℓ} {S File : Type ℓ} (k : Locks S File) (others : S → S) (laws : Lawful k others) where
  -- `file` is the directory that `path` names, and it has a shared lock.
  abbrev pub Pinned : S → Text → File → Inode → Type 0
  Pinned s path file i =
      (k.identity file ≡ ok i) × (k.named_identity s path ≡ ok i) × (k.held s i ≡ true)

  same_numbers : (a b c d : ℕ) → ((a == c) && (b == d)) ≡ true → ◌≡◌ {A = Inode} (a, b) (c, d)
  same_numbers a b c d h =
      let e : a ≡ c = ground arith in let f : b ≡ d = ground arith in rw (e, f) refl

  same_inode-eq-true :
      (opened named : Result ErrorKind Inode)
      → same_inode k opened named ≡ ok true
      → (i : Inode) × (opened ≡ ok i) × (named ≡ ok i)
  unfolding same_inode
  same_inode-eq-true (err e) named h = cc
  same_inode-eq-true (ok opened) (err e) h = cc
  same_inode-eq-true (ok opened) (ok named) h =
      (opened, refl, ap ok (sym (same_numbers opened.0 opened.1 named.0 named.1 (ok-injective h))))

  checked-Pinned :
      (dir : Text) (file f : File) (s : S) (same : Result ErrorKind Bool)
      → (same ≡ ok true → (i : Inode) × Pinned s dir file i)
      → (checked k dir file s same).1 ≡ ok f
      → (i : Inode) × Pinned (checked k dir file s same).0 dir f i
  unfolding checked
  checked-Pinned dir file f s (err e) pinned h = cc
  checked-Pinned dir file f s (ok true) pinned h =
      let here : file ≡ f = cc in subst (λ g. (i : Inode) × Pinned s dir g i) here (pinned refl)
  checked-Pinned dir file f s (ok false) pinned h = cc

  locked-Pinned :
      (dir : Text) (file f : File) (s : S) (answer : Result TryLockError (Unit {0}))
      → ((i : Inode) → is_ok answer ≡ true → k.identity file ≡ ok i → k.held s i ≡ true)
      → (locked k others dir file s answer).1 ≡ ok f
      → (i : Inode) × Pinned (locked k others dir file s answer).0 dir f i
  unfolding locked same_file
  locked-Pinned dir file f s (ok done) lock h =
      let s' = others s in
      checked-Pinned dir file f s' (same_file k s' file dir)
        (λ same.
          let (i, is_opened, named) =
            same_inode-eq-true (k.identity file) (k.named_identity s' dir) same in
          (i, (is_opened, named, laws.held-others s i (lock i refl is_opened))))
        h
  locked-Pinned dir file f s (err would_block) lock h = cc
  locked-Pinned dir file f s (err (lock_error e)) lock h = cc

  opened-Pinned :
      (s : S) (dir : Text) (f : File) (o : Result ErrorKind File)
      → (opened k others s dir o).1 ≡ ok f
      → (i : Inode) × Pinned (opened k others s dir o).0 dir f i
  unfolding opened
  opened-Pinned s dir f (err e) h = cc
  opened-Pinned s dir f (ok file) h =
      let answer = k.try_lock_shared (others s) file in
      locked-Pinned dir file f answer.0 answer.1
        (λ i e same. laws.try_lock_shared-held (others s) file i e same) h

  held-times : (n : ℕ) (s : S) (i : Inode) → k.held s i ≡ true → k.held (times n others s) i ≡ true
  held-times zero s i h = h
  held-times (suc n) s i h = held-times n (others s) i (laws.held-others s i h)

  claimed-eq-ok :
      (g f : File) (s : S) (answer : Result TryLockError (Unit {0}))
      → (claimed k g s answer).1 ≡ ok (some f)
      → (g ≡ f) × (is_ok answer ≡ true)
  unfolding claimed
  claimed-eq-ok g f s (ok done) h = (cc, refl)
  claimed-eq-ok g f s (err would_block) h = cc
  claimed-eq-ok g f s (err (lock_error e)) h = cc

  claim_opened-held :
      (s : S) (g : File) (i : Inode) (o : Result ErrorKind File)
      → k.held s i ≡ true
      → (claim_opened k others s o).1 ≡ ok (some g)
      → k.identity g ≢ ok i
  unfolding claim_opened
  claim_opened-held s g i (err e) held h same = cc
  claim_opened-held s g i (ok file) held h same =
      let answer = k.try_lock (others s) file in
      let (here, locked_now) = claimed-eq-ok file g answer.0 answer.1 h in
      cc (laws.try_lock-held (others s) file i (rw here same) (laws.held-others s i held))

  -- A session that pins a directory has opened the very file that the path names once the lock is
  -- taken; and as long as the session keeps it, whatever other processes do, a file that is
  -- claimed by any path is another one.
  pub pin-Held :
      (s : S) (dir : Text) (f : File)
      → (pin k others s dir).1 ≡ ok f
      → (n : ℕ) (path : Text) (g : File)
      → (try_claim k others (times n others (pin k others s dir).0) path).1 ≡ ok (some g)
      → (k.named_identity (pin k others s dir).0 dir ≡ k.identity f) × (k.identity g ≢ k.identity f)
  unfolding pin try_claim
  pin-Held s dir f h n path g claim =
      let s' = (pin k others s dir).0 in
      let (i, (same, named, held)) = opened-Pinned s dir f (k.open_file s dir) h in
      let later = times n others s' in
      let other =
        claim_opened-held later g i (k.open_file later path) (held-times n s' i held) claim in
      rw same (named, other)
