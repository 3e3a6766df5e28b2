-- ===== src/Trust/Memory/Records.antt =====
-- A file system in memory for owner records.
use weft_os.Base.{
  ℕ, ◌≡◌, ◌≢◌, refl, sym, ap, ◌∙◌, ==_refl, true, false, [], ◌∷◌, ◌++◌, Option, none, some, Text,
  codes, Result, ok, err, is_ok, arith,
}
use weft_os.Base.Disk.{ErrorKind, not_found, other_error}
use weft_os.Portal.Memory.{
  Disk, find_name, remove_name, fresh, set_bytes, set_bytes-other, find_name-remove_name,
  find_name-lt-fresh, find_name-head, find_name-tail,
}
use weft_os.Trust.Owners.{OwnerFiles}
use weft_os.Trust.Owners.Written.{Observation, Untouched, Lawful}
use weft_os.Trust.Memory.{toy}

made : Disk → Text → Option ℕ → Disk × Result ErrorKind ℕ
made s name (some f) = (s, err other_error)
made s name none = (
  record s {
    names = (name, fresh s.names) ∷ s.names;
    bytes = set_bytes (fresh s.names) [] s.bytes;
  },
  ok (fresh s.names),
)

linked : Disk → Text → Option ℕ → Option ℕ → Disk × Result ErrorKind (Unit {0})
linked s to none old = (s, err not_found)
linked s to (some f) (some g) = (s, err other_error)
linked s to (some f) none = (record s { names = (to, f) ∷ s.names }, ok tt)

contents : Disk → Option ℕ → Result ErrorKind Text
contents s none = err not_found
contents s (some f) = ok (s.bytes f)

unfoldable pub records : OwnerFiles Disk ℕ
unfolding made linked contents
records = record {
  parent = λ p. some (codes "/d/weft/owners");
  read_to_string = λ s p. contents s (find_name p s.names);
  create_dir_all = λ s p. (s, ok tt);
  remove_file = λ s p. record s { names = remove_name p s.names };
  create_new = λ s p. made s p (find_name p s.names);
  write_all = λ s f b. (record s { bytes = set_bytes f (s.bytes f ++ b) s.bytes }, ok tt);
  sync_all = λ s f. (s, ok tt);
  hard_link = λ s from to. linked s to (find_name from s.names) (find_name to s.names);
  sync_dir = λ s p. (s, ok tt);
  open_lock = λ s p. (s, ok 0);
  lock = λ s f. (s, ok tt);
}

abbrev pub watch : Observation Disk ℕ
watch = record { entry = λ s p. find_name p s.names; bytes = λ s f. s.bytes f }

made-Untouched :
    (s : Disk) (temp path : Text) (old : Option ℕ)
    → path ≢ temp
    → Untouched watch path s (made s temp old).0
unfolding made
made-Untouched s temp path (some f) other = (refl, λ g e. refl)
made-Untouched s temp path none other = (
  find_name-tail path temp (fresh s.names) s.names other,
  λ g e.
      set_bytes-other (fresh s.names) g [] s.bytes
        (λ same. omega (arith, find_name-lt-fresh path s.names g e)),
)

made-fresh :
    (s : Disk) (temp : Text) (old : Option ℕ) (f : ℕ)
    → (made s temp old).1 ≡ ok f
    → (find_name temp (made s temp old).0.names ≡ some f) × ((made s temp old).0.bytes f ≡ [])
unfolding made
made-fresh s temp (some g) f h = cc
made-fresh s temp none f h =
    let is_fresh : fresh s.names ≡ f = cc in
    (
      rw (find_name-head temp (fresh s.names) s.names) (ap some is_fresh),
      rw (is_fresh, ==_refl f) refl,
    )

made-other :
    (s : Disk) (temp path : Text) (old : Option ℕ) (f g : ℕ)
    → (made s temp old).1 ≡ ok f
    → path ≢ temp
    → find_name path (made s temp old).0.names ≡ some g
    → g ≢ f
unfolding made
made-other s temp path (some x) f g h other e same = cc
made-other s temp path none f g h other e same =
    let is_fresh : fresh s.names ≡ f = cc in
    let held = sym (find_name-tail path temp (fresh s.names) s.names other) ∙ e in
    omega (arith, find_name-lt-fresh path s.names g held)

linked-made :
    (s : Disk) (from to : Text) (new old : Option ℕ)
    → find_name from s.names ≡ new
    → find_name to s.names ≡ old
    → is_ok (linked s to new old).1 ≡ true
    → (find_name to s.names ≡ none)
      × (find_name to (linked s to new old).0.names ≡ find_name from s.names)
unfolding linked
linked-made s from to none old e d h = cc
linked-made s from to (some f) (some g) e d h = cc
linked-made s from to (some f) none e d h = (d, find_name-head to f s.names ∙ sym e)

linked-bytes :
    (s : Disk) (to : Text) (new old : Option ℕ) (g : ℕ)
    → (linked s to new old).0.bytes g ≡ s.bytes g
unfolding linked
linked-bytes s to none old g = refl
linked-bytes s to (some f) (some x) g = refl
linked-bytes s to (some f) none g = refl

linked-refused :
    (s : Disk) (to : Text) (new old : Option ℕ)
    → is_ok (linked s to new old).1 ≡ false
    → Untouched watch to s (linked s to new old).0
unfolding linked
linked-refused s to none old h = (refl, λ g e. refl)
linked-refused s to (some f) (some x) h = (refl, λ g e. refl)
linked-refused s to (some f) none h = cc

contents-bytes :
    (s : Disk) (found : Option ℕ) (t : Text) (f : ℕ)
    → contents s found ≡ ok t
    → found ≡ some f
    → t ≡ s.bytes f
unfolding contents
contents-bytes s none t f h e = cc
contents-bytes s (some g) t f h e =
    let same : g ≡ f = cc in let here : s.bytes g ≡ t = cc in sym here ∙ ap s.bytes same

pub records-Lawful : Lawful toy records watch
unfolding records
records-Lawful = record {
  read_to_string-bytes = λ s p t f. contents-bytes s (find_name p s.names) t f;
  create_dir_all-Untouched = λ s d p. (refl, λ g e. refl);
  remove_file-Untouched = λ s t p other. (find_name-remove_name p t s.names other, λ g e. refl);
  create_new-Untouched = λ s t p. made-Untouched s t p (find_name t s.names);
  create_new-fresh = λ s t f. made-fresh s t (find_name t s.names) f;
  create_new-other = λ s t p f g. made-other s t p (find_name t s.names) f g;
  write_all-entry = λ s f t p. refl;
  write_all-bytes = λ s f g t other. set_bytes-other f g (s.bytes f ++ t) s.bytes other;
  write_all-all = λ s f t h. rw (==_refl f) refl;
  sync_all-Untouched = λ s f p. (refl, λ g e. refl);
  hard_link-made =
      λ s from to. linked-made s from to (find_name from s.names) (find_name to s.names) refl refl;
  hard_link-bytes = λ s from to. linked-bytes s to (find_name from s.names) (find_name to s.names);
  hard_link-refused =
      λ s from to. linked-refused s to (find_name from s.names) (find_name to s.names);
  sync_dir-Untouched = λ s d p. (refl, λ g e. refl);
}
