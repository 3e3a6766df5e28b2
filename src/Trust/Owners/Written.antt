-- ===== src/Trust/Owners/Written.antt =====
-- What `write_owner` leaves at the path of the record.
use weft_os.Base.{
  ◌≡◌, ◌≢◌, refl, sym, ◌∙◌, ◌⊎◌, true, false, [], Option, none, some, Text, ◌++◌, is_ok, Result, ok,
  err,
}
use weft_os.Base.Disk.{ErrorKind}
use weft_os.Trust.{Crypto, io_at}
use weft_os.Trust.Owners.{OwnerFiles, synced, fill, fill_opened, write_temp}

-- The file that a path stands for, and a file's bytes.
pub record Observation {ℓ} (S File : Type ℓ) : Type ℓ where
  pub entry : S → Text → Option File
  pub bytes : S → File → Text

module _ {ℓ} {S File : Type ℓ} (o : Observation S File) where
  -- `path` stands for the file that it stood for, if any, and that has the bytes it had.
  abbrev pub Untouched : Text → S → S → Type ℓ
  Untouched path s s' =
      (o.entry s' path ≡ o.entry s path)
      × ((g : File) → o.entry s path ≡ some g → o.bytes s' g ≡ o.bytes s g)

  -- `path` was free, and stands for a file of this text.
  abbrev pub Recorded : Text → Text → S → S → Type ℓ
  Recorded path text s s' =
      (o.entry s path ≡ none) × ((f : File) × (o.entry s' path ≡ some f) × (o.bytes s' f ≡ text))

  -- `path` stands for a file of this text.
  abbrev pub Holds : Text → Text → S → Type ℓ
  Holds path text s = (f : File) × (o.entry s path ≡ some f) × (o.bytes s f ≡ text)

  abbrev pub Outcome {κ} : {E : Type κ} → Text → Text → S → S → Result E (Unit {0}) → Type ℓ
  Outcome path text s s' (ok done) = Recorded path text s s'
  Outcome path text s s' (err e) = Untouched path s s' ⊎ Recorded path text s s'

  pub Untouched-Untouched :
      (path : Text) (s s' s'' : S)
      → Untouched path s s'
      → Untouched path s' s''
      → Untouched path s s''
  Untouched-Untouched path s s' s'' u v = (v.0 ∙ u.0, λ g e. v.1 g (u.0 ∙ e) ∙ u.1 g e)

  pub Untouched-Recorded :
      (path text : Text) (s s' s'' : S)
      → Untouched path s s'
      → Recorded path text s' s''
      → Recorded path text s s''
  Untouched-Recorded path text s s' s'' u r = (sym u.0 ∙ r.0, r.1)

  pub Recorded-Untouched :
      (path text : Text) (s s' s'' : S)
      → Recorded path text s s'
      → Untouched path s' s''
      → Recorded path text s s''
  Recorded-Untouched path text s s' s'' (free, (f, e, b)) u = (free, (f, u.0 ∙ e, u.1 f e ∙ b))

module _ {ℓ} {S File : Type ℓ} {Key Signature : Type 0} (c : Crypto Key Signature)
    (fs : OwnerFiles S File) (o : Observation S File) where
  -- What the calls are documented to do to a path, and to the file that it stands for.
  pub record Lawful : Type ℓ where
    pub read_to_string-bytes :
        (s : S) (path t : Text) (f : File)
        → fs.read_to_string s path ≡ ok t
        → o.entry s path ≡ some f
        → t ≡ o.bytes s f
    pub create_dir_all-Untouched :
        (s : S) (dir path : Text) → Untouched o path s (fs.create_dir_all s dir).0
    pub remove_file-Untouched :
        (s : S) (temp path : Text) → path ≢ temp → Untouched o path s (fs.remove_file s temp)
    pub create_new-Untouched :
        (s : S) (temp path : Text) → path ≢ temp → Untouched o path s (fs.create_new s temp).0
    -- a new file, which no path stood for
    pub create_new-fresh :
        (s : S) (temp : Text) (f : File)
        → (fs.create_new s temp).1 ≡ ok f
        → (o.entry (fs.create_new s temp).0 temp ≡ some f)
          × (o.bytes (fs.create_new s temp).0 f ≡ [])
    pub create_new-other :
        (s : S) (temp path : Text) (f g : File)
        → (fs.create_new s temp).1 ≡ ok f
        → path ≢ temp
        → o.entry (fs.create_new s temp).0 path ≡ some g
        → g ≢ f
    pub write_all-entry :
        (s : S) (f : File) (t path : Text) → o.entry (fs.write_all s f t).0 path ≡ o.entry s path
    pub write_all-bytes :
        (s : S) (f g : File) (t : Text) → g ≢ f → o.bytes (fs.write_all s f t).0 g ≡ o.bytes s g
    pub write_all-all :
        (s : S) (f : File) (t : Text)
        → is_ok (fs.write_all s f t).1 ≡ true
        → o.bytes (fs.write_all s f t).0 f ≡ o.bytes s f ++ t
    pub sync_all-Untouched :
        (s : S) (f : File) (path : Text) → Untouched o path s (fs.sync_all s f).0
    -- a new name for a file, which was free; an error changes nothing
    pub hard_link-made :
        (s : S) (from to : Text)
        → is_ok (fs.hard_link s from to).1 ≡ true
        → (o.entry s to ≡ none) × (o.entry (fs.hard_link s from to).0 to ≡ o.entry s from)
    pub hard_link-bytes :
        (s : S) (from to : Text) (g : File) → o.bytes (fs.hard_link s from to).0 g ≡ o.bytes s g
    pub hard_link-refused :
        (s : S) (from to : Text)
        → is_ok (fs.hard_link s from to).1 ≡ false
        → Untouched o to s (fs.hard_link s from to).0
    pub sync_dir-Untouched : (s : S) (dir path : Text) → Untouched o path s (fs.sync_dir s dir).0

  module _ (laws : Lawful) where
    synced-Untouched :
        (s : S) (answer : Result ErrorKind (Unit {0})) (f : File) (path : Text)
        → Untouched o path s (synced c fs s answer f).0
    unfolding synced
    synced-Untouched s (err e) f path = (refl, λ g e. refl)
    synced-Untouched s (ok done) f path = laws.sync_all-Untouched s f path

    fill-Untouched :
        (s : S) (f : File) (t path : Text)
        → ((g : File) → o.entry s path ≡ some g → g ≢ f)
        → Untouched o path s (fill c fs s f t).0
    unfolding fill
    fill-Untouched s f t path other =
        let w = fs.write_all s f t in
        Untouched-Untouched o path s w.0 (synced c fs w.0 w.1 f).0
          (laws.write_all-entry s f t path, λ g e. laws.write_all-bytes s f g t (other g e))
          (synced-Untouched w.0 w.1 f path)

    synced-ok :
        (s : S) (answer : Result ErrorKind (Unit {0})) (f : File)
        → is_ok (synced c fs s answer f).1 ≡ true
        → is_ok answer ≡ true
    unfolding synced
    synced-ok s (err e) f h = h
    synced-ok s (ok done) f h = refl

    fill-Holds :
        (s : S) (f : File) (t path : Text)
        → o.entry s path ≡ some f
        → o.bytes s f ≡ []
        → is_ok (fill c fs s f t).1 ≡ true
        → Holds o path t (fill c fs s f t).0
    unfolding fill
    fill-Holds s f t path e b h =
        let w = fs.write_all s f t in
        let here = laws.write_all-entry s f t path ∙ e in
        let u = synced-Untouched w.0 w.1 f path in
        let all_written = laws.write_all-all s f t (synced-ok w.0 w.1 f h) in
        (f, u.0 ∙ here, u.1 f here ∙ (all_written ∙ rw b refl))

    fill_opened-Untouched :
        (s : S) (opened : Result ErrorKind File) (t path : Text)
        → ((f g : File) → opened ≡ ok f → o.entry s path ≡ some g → g ≢ f)
        → Untouched o path s (fill_opened c fs s opened t).0
    unfolding fill_opened
    fill_opened-Untouched s (err e) t path other = (refl, λ g e. refl)
    fill_opened-Untouched s (ok f) t path other =
        fill-Untouched s f t path (λ g e. other f g refl e)

    fill_opened-Holds :
        (s : S) (opened : Result ErrorKind File) (t path : Text)
        → ((f : File) → opened ≡ ok f → (o.entry s path ≡ some f) × (o.bytes s f ≡ []))
        → is_ok (fill_opened c fs s opened t).1 ≡ true
        → Holds o path t (fill_opened c fs s opened t).0
    unfolding fill_opened
    fill_opened-Holds s (err e) t path fresh h = cc
    fill_opened-Holds s (ok f) t path fresh h =
        let (e, b) = fresh f refl in fill-Holds s f t path e b h

    is_ok-io_at : (path : Text) (r : Result ErrorKind (Unit {0})) → is_ok (io_at path r) ≡ is_ok r
    unfolding io_at
    is_ok-io_at path (err e) = refl
    is_ok-io_at path (ok done) = refl

    pub write_temp-Untouched :
        (s : S) (temp t path : Text) → path ≢ temp → Untouched o path s (write_temp c fs s temp t).0
    unfolding write_temp
    write_temp-Untouched s temp t path other =
        let n = fs.create_new s temp in
        Untouched-Untouched o path s n.0 (fill_opened c fs n.0 n.1 t).0
          (laws.create_new-Untouched s temp path other)
          (fill_opened-Untouched n.0 n.1 t path
            (λ f g made e. laws.create_new-other s temp path f g made other e))

    pub write_temp-Holds :
        (s : S) (temp t : Text)
        → is_ok (write_temp c fs s temp t).1 ≡ true
        → Holds o temp t (write_temp c fs s temp t).0
    unfolding write_temp
    write_temp-Holds s temp t h =
        let n = fs.create_new s temp in
        fill_opened-Holds n.0 n.1 t temp (λ f. laws.create_new-fresh s temp f)
          (sym (is_ok-io_at temp (fill_opened c fs n.0 n.1 t).1) ∙ h)
