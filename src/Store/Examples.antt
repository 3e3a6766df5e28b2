-- ===== src/Store/Examples.antt =====
-- A store with one revision of an app, and a system where a session pins it.
use weft_os.Base.{
  ◌≢◌, ◌≡◌, refl, ℕ, ◌==◌, Bool, true, false, ◌||◌, any, List, [], ◌∷◌, Option, none, some, Text,
  codes, text_eq, if◌then◌else◌, arith, Result, ok, err, is_ok,
}
use weft_os.Base.Paths.{components}
use weft_os.Base.Disk.{Disk, ErrorKind, not_found, other_error, folder, link}
use weft_os.Store.{
  link_target, is_revision_name, revision, directory, active, not_a_package, io, revisions_of,
}
use weft_os.Store.Pin.{Inode, Locks, would_block, pin, try_claim, Lawful}
use weft_os.Store.Pin.Held.{pin-Held}

abbrev digest : Text
digest = codes "0123456789abcdef0123456789abcdef0123456789abcdef0123456789abcdef"

abbrev notes : Text
notes = codes "com.example.notes"

-- `/s` holds a link for the app, an old directory for another, and a stray link.
abbrev store : Disk
store = record {
  symlink_metadata = λ p.
      if text_eq p (codes "/s/com.example.notes") || text_eq p (codes "/s/com.example.stray")
      then ok link
      else if text_eq p (codes "/s/com.example.old")
          || text_eq p (
              codes
                "/s/.revisions/com.example.notes/0123456789abcdef0123456789abcdef0123456789abcdef0123456789abcdef")
      then ok folder
      else err not_found;
  read_link = λ p.
      if text_eq p (codes "/s/com.example.notes")
      then ok (link_target notes digest)
      else ok (codes "/etc");
  read = λ p. err other_error;
  read_dir = λ p. err other_error;
}

active_revision :
    active store (codes "/s") notes
    ≡ ok (
        some (
          revision digest (
            codes
              "/s/.revisions/com.example.notes/0123456789abcdef0123456789abcdef0123456789abcdef0123456789abcdef")))
unfolding active text_eq weft_os.Base.starts_with weft_os.Base.ends_with
    weft_os.Base.Paths.file_name components link_target weft_os.Base.split is_revision_name
    weft_os.Base.all weft_os.Base.Paths.path_eq weft_os.Store.revisions_of
active_revision = refl

active_directory :
    active store (codes "/s") (codes "com.example.old")
    ≡ ok (some (directory (codes "/s/com.example.old")))
unfolding active text_eq weft_os.Base.starts_with weft_os.Base.ends_with
active_directory = refl

active_missing : active store (codes "/s") (codes "com.example.none") ≡ ok none
unfolding active text_eq weft_os.Base.starts_with weft_os.Base.ends_with
active_missing = refl

active_stray :
    active store (codes "/s") (codes "com.example.stray")
    ≡ err (not_a_package (codes "/s/com.example.stray"))
unfolding active text_eq weft_os.Base.starts_with weft_os.Base.ends_with
    weft_os.Base.Paths.file_name components weft_os.Base.split is_revision_name
active_stray = refl

-- The inodes with a shared lock are the state; other processes pin the inode 9 again and again.
abbrev system : Locks (List ℕ) ℕ
system = record {
  open_file = λ s p. ok (if text_eq p (codes "/s/a") then 7 else 8);
  try_lock_shared = λ s f. (f ∷ s, ok tt);
  try_lock = λ s f. (s, (if any (λ i. i == f) s then err would_block else ok tt));
  identity = λ f. ok (1, f);
  named_identity = λ s p. ok (1, if text_eq p (codes "/s/a") then 7 else 8);
  close = λ s f. s;
  held = λ s i. any (λ j. j == i.1) s;
}

abbrev others : List ℕ → List ℕ
others s = 9 ∷ s

same_number : {f : ℕ} {i : Inode} → ◌≡◌ {A = Result ErrorKind Inode} (ok (1, f)) (ok i) → f ≡ i.1
same_number h = cc

system-Lawful : Lawful system others
unfolding any
system-Lawful = record {
  held-others = λ s i h. ground arith;
  try_lock_shared-held = λ s file i h e. let same = same_number e in ground arith;
  try_lock-held = λ s file i e h. rw (same_number e, h) refl;
}

pin_others : (pin system others [] (codes "/s/a")).1 ≡ ok 7
unfolding pin weft_os.Store.Pin.same_file text_eq
pin_others = refl

claim_pinned :
    (try_claim system others (pin system others [] (codes "/s/a")).0 (codes "/s/a")).1 ≡ ok none
unfolding pin try_claim any text_eq weft_os.Store.Pin.same_file
claim_pinned = refl

pin-Held_example :
    (system.named_identity (pin system others [] (codes "/s/a")).0 (codes "/s/a")
      ≡ system.identity 7)
    × (system.identity 8 ≢ system.identity 7)
unfolding pin weft_os.Store.Pin.same_file text_eq try_claim any
pin-Held_example =
    pin-Held system others system-Lawful [] (codes "/s/a") 7 refl 2 (codes "/s/b") 8 refl
