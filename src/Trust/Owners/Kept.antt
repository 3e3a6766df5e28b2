-- ===== src/Trust/Owners/Kept.antt =====
-- A record is written once, and is never there in part.
use weft_os.Base.{
  ◌≡◌, ◌≢◌, suc, ◌+◌, refl, sym, subst, ap, ◌∙◌, inl, inr, Bool, true, not, ◌==◌, is_digit, all,
  all-append, length, length-append, Option-cases, none-ne-some, some-injective, [], ◌∷◌, Option,
  none, some, Text, codes, ◌++◌, text_eq, is_ok, Result, ok, err, arith,
}
use weft_os.Base.Paths.{components, join, file_name, is_plain}
use weft_os.Base.Paths.Compare.{file_name-join, file_name-IsName}
use weft_os.Base.Disk.{ErrorKind}
use weft_os.Trust.{Crypto, TrustError, io_at}
use weft_os.Trust.Owners.{
  OwnerFiles, Owner, owner_text, write_temp, link_temp, finish, through_temp, in_made, in_dir,
  below, temp_name, record_name, write_owner,
}
use weft_os.Trust.Owners.Written.{
  Observation, Untouched, Recorded, Holds, Outcome, Untouched-Untouched, Untouched-Recorded,
  Recorded-Untouched, Lawful, write_temp-Untouched, write_temp-Holds,
}

abbrev no_slash : Text → Bool
no_slash s = all (λ b. not (b == b'/')) s

digits-no_slash : (s : Text) → all is_digit s ≡ true → no_slash s ≡ true
unfolding all
digits-no_slash [] h = refl
digits-no_slash (b ∷ s) h = ground (arith, digits-no_slash s)

temp_name-no_slash :
    (n pid : Text) → no_slash n ≡ true → no_slash pid ≡ true → no_slash (temp_name n pid) ≡ true
unfolding all
temp_name-no_slash n pid h k =
    rw
      (
        all-append (λ b. not (b == b'/')) n (b'.' ∷ (pid ++ codes ".tmp")),
        all-append (λ b. not (b == b'/')) pid (codes ".tmp"),
        h,
        k,
      )
      refl

temp_name-is_plain : (n pid : Text) → is_plain (temp_name n pid) ≡ true
unfolding text_eq
temp_name-is_plain [] [] = refl
temp_name-is_plain [] (b ∷ pid) = ground arith
temp_name-is_plain (a ∷ []) pid = ground arith
temp_name-is_plain (a ∷ b ∷ n) pid = ground arith

temp_name-ne : (n pid : Text) → n ≢ temp_name n pid
temp_name-ne n pid e =
    let l : length n ≡ suc (length n + length (b'.' ∷ (pid ++ codes ".tmp"))) =
      ap length e ∙ ap suc (length-append n (b'.' ∷ (pid ++ codes ".tmp"))) in
    omega arith

record_name-no_slash :
    (path : Text) (name : Option Text) → file_name path ≡ name → no_slash (record_name path) ≡ true
record_name-no_slash path none e = rw (record_name, e) (unfold all in refl)
record_name-no_slash path (some n) e = rw (record_name, e) (file_name-IsName path n e).1

-- The temporary file is another one than the record.
temp-ne-record :
    (path dir pid : Text)
    → all is_digit pid ≡ true
    → path ≢ join dir (temp_name (record_name path) pid)
temp-ne-record path dir pid digits e = elim (Option-cases (file_name path)) [
  | inl n ↦ none-ne-some (sym n ∙ last)
  | inr (n, named) ↦
      temp_name-ne n pid (some-injective (sym named ∙ (last ∙ rw (record_name, named) refl)))
]
  where
    temp : Text
    temp = temp_name (record_name path) pid

    last : file_name path ≡ some temp
    last =
        file_name-join path dir temp
          (
            temp_name-is_plain (record_name path) pid,
            temp_name-no_slash (record_name path) pid
                (record_name-no_slash path (file_name path) refl) (digits-no_slash pid digits),
          )
          (ap components e)

module _ {ℓ} {S File : Type ℓ} {Key Signature : Type 0} (c : Crypto Key Signature)
    (fs : OwnerFiles S File) (o : Observation S File) (laws : Lawful c fs o) where
  link_temp-Outcome :
      (s : S) (written : Result TrustError (Unit {0})) (temp path t : Text)
      → (is_ok written ≡ true → Holds o temp t s)
      → Outcome o path t s
          (link_temp c fs s written temp path).0
          (link_temp c fs s written temp path).1
  unfolding link_temp io_at
  link_temp-Outcome s (err e) temp path t h = inl (refl, λ g e. refl)
  link_temp-Outcome s (ok done) temp path t h = go (fs.hard_link s temp path).1 refl
    where
      go :
          (r : Result ErrorKind (Unit {0}))
          → (fs.hard_link s temp path).1 ≡ r
          → Outcome o path t s (fs.hard_link s temp path).0 (io_at path r)
      go (err e) h' = inl (laws.hard_link-refused s temp path (rw h' refl))
      go (ok d) h' =
          let (free, made) = laws.hard_link-made s temp path (rw h' refl) in
          let (f, named, bytes) = h refl in
          (free, (f, made ∙ named, laws.hard_link-bytes s temp path f ∙ bytes))

  finish-Outcome :
      (s s' : S) (linked : Result TrustError (Unit {0})) (dir path t : Text)
      → Outcome o path t s s' linked
      → Outcome o path t s (finish c fs s' linked dir).0 (finish c fs s' linked dir).1
  unfolding finish io_at
  finish-Outcome s s' (err e) dir path t h = h
  finish-Outcome s s' (ok done) dir path t h = go (fs.sync_dir s' dir).1 (
      Recorded-Untouched o path t s s' (fs.sync_dir s' dir).0 h
        (laws.sync_dir-Untouched s' dir path))
    where
      go :
          (r : Result ErrorKind (Unit {0}))
          → Recorded o path t s (fs.sync_dir s' dir).0
          → Outcome o path t s (fs.sync_dir s' dir).0 (io_at dir r)
      go (err e) h' = inr h'
      go (ok d) h' = h'

  Outcome-Untouched :
      (s s' s'' : S) (r : Result TrustError (Unit {0})) (path t : Text)
      → Outcome o path t s s' r
      → Untouched o path s' s''
      → Outcome o path t s s'' r
  Outcome-Untouched s s' s'' (ok done) path t h u = Recorded-Untouched o path t s s' s'' h u
  Outcome-Untouched s s' s'' (err e) path t (inl v) u =
      inl (Untouched-Untouched o path s s' s'' v u)
  Outcome-Untouched s s' s'' (err e) path t (inr r) u =
      inr (Recorded-Untouched o path t s s' s'' r u)

  Untouched-Outcome :
      (s s' s'' : S) (r : Result TrustError (Unit {0})) (path t : Text)
      → Untouched o path s s'
      → Outcome o path t s' s'' r
      → Outcome o path t s s'' r
  Untouched-Outcome s s' s'' (ok done) path t u h = Untouched-Recorded o path t s s' s'' u h
  Untouched-Outcome s s' s'' (err e) path t u (inl v) =
      inl (Untouched-Untouched o path s s' s'' u v)
  Untouched-Outcome s s' s'' (err e) path t u (inr r) =
      inr (Untouched-Recorded o path t s s' s'' u r)

  through_temp-Outcome :
      (s : S) (dir temp path t : Text)
      → path ≢ temp
      → Outcome o path t s
          (through_temp c fs s dir temp path t).0
          (through_temp c fs s dir temp path t).1
  unfolding through_temp
  through_temp-Outcome s dir temp path t other =
      let s0 = fs.remove_file s temp in
      let w = write_temp c fs s0 temp t in
      let l = link_temp c fs w.0 w.1 temp path in
      let linked = link_temp-Outcome w.0 w.1 temp path t (write_temp-Holds c fs o laws s0 temp t) in
      let removed =
        Outcome-Untouched w.0 l.0 (fs.remove_file l.0 temp) l.1 path t linked
          (laws.remove_file-Untouched l.0 temp path other) in
      let before =
        Untouched-Untouched o path s s0 w.0 (laws.remove_file-Untouched s temp path other)
          (write_temp-Untouched c fs o laws s0 temp t path other) in
      finish-Outcome s (fs.remove_file l.0 temp) l.1 dir path t
        (Untouched-Outcome s w.0 (fs.remove_file l.0 temp) l.1 path t before removed)

  in_made-Outcome :
      (s : S) (made : Result ErrorKind (Unit {0})) (dir pid path t : Text)
      → all is_digit pid ≡ true
      → Outcome o path t s
          (in_made c fs s made dir pid path t).0
          (in_made c fs s made dir pid path t).1
  unfolding in_made
  in_made-Outcome s (err e) dir pid path t digits = inl (refl, λ g e. refl)
  in_made-Outcome s (ok done) dir pid path t digits =
      through_temp-Outcome s dir (join dir (temp_name (record_name path) pid)) path t
        (temp-ne-record path dir pid digits)

  in_dir-Outcome :
      (s : S) (dir pid path t : Text)
      → all is_digit pid ≡ true
      → Outcome o path t s (in_dir c fs s dir pid path t).0 (in_dir c fs s dir pid path t).1
  unfolding in_dir
  in_dir-Outcome s dir pid path t digits =
      let d = fs.create_dir_all s dir in
      let r = in_made c fs d.0 d.1 dir pid path t in
      Untouched-Outcome s d.0 r.0 r.1 path t (laws.create_dir_all-Untouched s dir path)
        (in_made-Outcome d.0 d.1 dir pid path t digits)

  below-Outcome :
      (s s' : S) (parent : Option Text) (pid path t : Text) (r : Result TrustError (Unit {0}))
      → all is_digit pid ≡ true
      → below c fs s parent pid path t ≡ some (s', r)
      → Outcome o path t s s' r
  unfolding below
  below-Outcome s s' none pid path t r digits h = cc
  below-Outcome s s' (some dir) pid path t r digits h =
      subst (λ z. Outcome o path t s z.0 z.1) (some-injective h)
        (in_dir-Outcome s dir pid path t digits)

  -- `write_owner` succeeds only when there was no record, which then is the owner's, complete.
  -- When it fails, the record is what it was, or was absent and is complete: one that exists is
  -- never replaced, and none is ever there in part.
  pub write_owner-Outcome :
      (s s' : S) (pid path : Text) (owner : Owner Key) (r : Result TrustError (Unit {0}))
      → all is_digit pid ≡ true
      → write_owner c fs s pid path owner ≡ some (s', r)
      → Outcome o path (owner_text c owner) s s' r
  unfolding write_owner
  write_owner-Outcome s s' pid path owner r digits h =
      below-Outcome s s' (fs.parent path) pid path (owner_text c owner) r digits h
