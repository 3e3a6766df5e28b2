-- ===== src/Portal/Memory.antt =====
-- One directory held in memory, with kernel calls that behave as `Lawful` says.
use Prim.Native.Nat.{max}
use weft_os.Base.{
  ℕ, ◌≡◌, ◌≢◌, refl, sym, ap, ◌∙◌, ◌+◌, ◌<◌, ◌==◌, ==_iff, ==_refl, true, List, [], ◌∷◌, ◌++◌,
  Option, none, some, Text, text_eq, text_eq→eq, text_eq_refl, Result, ok, err, if◌then◌else◌,
  arith,
}
use weft_os.Portal.Kernel.{Errno, other, Kernel, Observation, Lawful}

abbrev pub Names : Type 0
Names = List (Text × ℕ)

pub record Disk : Type 0 where
  pub names : Names
  pub bytes : ℕ → Text

unfoldable pub find_name : Text → Names → Option ℕ
find_name n [] = none
find_name n ((m, f) ∷ names) = if text_eq m n then some f else find_name n names

unfoldable pub remove_name : Text → Names → Names
remove_name n [] = []
remove_name n ((m, f) ∷ names) =
    let rest = remove_name n names in if text_eq m n then rest else (m, f) ∷ rest

-- above the number of every file
unfoldable pub fresh : Names → ℕ
fresh [] = 0
fresh ((m, f) ∷ names) = max (f + 1) (fresh names)

abbrev pub set_bytes : ℕ → Text → (ℕ → Text) → ℕ → Text
set_bytes f b bytes g = if g == f then b else bytes g

unfoldable pub create : Disk → Text → Option ℕ → Disk × Result Errno ℕ
create s name (some f) = (s, err (other 17))
create s name none = (
  record s {
    names = (name, fresh s.names) ∷ s.names;
    bytes = set_bytes (fresh s.names) [] s.bytes;
  },
  ok (fresh s.names),
)

unfoldable pub rename : Disk → Text → Text → Option ℕ → Disk × Result Errno (Unit {0})
rename s from to none = (s, err (other 2))
rename s from to (some f) = (record s { names = (to, f) ∷ remove_name from s.names }, ok tt)

abbrev pub memory : Kernel Disk ℕ
unfolding find_name remove_name fresh create rename
memory = record {
  openat2 = λ s dir names flags. ok 0;
  is_regular = λ s f. ok true;
  read_up_to = λ s f n. ok (s.bytes f);
  read_dir = λ s dir. ok [];
  mode_of = λ s dir name. none;
  create_new = λ s dir name. create s name (find_name name s.names);
  fchmod = λ s f mode. s;
  write_all = λ s f b. (record s { bytes = set_bytes f (s.bytes f ++ b) s.bytes }, ok tt);
  sync_all = λ s f. (s, ok tt);
  renameat = λ s dir from to. rename s from to (find_name from s.names);
  unlinkat = λ s dir name. record s { names = remove_name name s.names };
  fsync = λ s dir. s;
}

abbrev pub watch : Observation Disk ℕ
unfolding find_name
watch = record { entry = λ s dir name. find_name name s.names; bytes = λ s f. s.bytes f }

pub find_name-remove_name :
    (n m : Text) (names : Names) → n ≢ m → find_name n (remove_name m names) ≡ find_name n names
unfolding find_name remove_name
find_name-remove_name n m [] h = refl
find_name-remove_name n m ((k, f) ∷ names) h = ground (
  arith,
  find_name-remove_name n m names,
  text_eq→eq k m,
  text_eq→eq k n,
  λ (e : k ≡ m) (d : k ≡ n). h (sym d ∙ e),
)

pub find_name-lt-fresh :
    (n : Text) (names : Names) (f : ℕ) → find_name n names ≡ some f → f < fresh names
unfolding find_name fresh
find_name-lt-fresh n [] f h = cc
find_name-lt-fresh n ((m, g) ∷ names) f h = ground (arith, find_name-lt-fresh n names f)

pub find_name-head : (n : Text) (f : ℕ) (names : Names) → find_name n ((n, f) ∷ names) ≡ some f
unfolding find_name
find_name-head n f names = rw (text_eq_refl n) refl

pub find_name-tail :
    (n m : Text) (f : ℕ) (names : Names) → n ≢ m → find_name n ((m, f) ∷ names) ≡ find_name n names
unfolding find_name
find_name-tail n m f names h = ground (arith, text_eq→eq m n, λ (e : m ≡ n). h (sym e))

pub set_bytes-other :
    (f g : ℕ) (b : Text) (bytes : ℕ → Text) → g ≢ f → set_bytes f b bytes g ≡ bytes g
set_bytes-other f g b bytes h = ground (arith, ==_iff g f)

create-entry :
    (s : Disk) (name : Text) (e : Option ℕ) (f : ℕ)
    → (create s name e).1 ≡ ok f
    → (find_name name (create s name e).0.names ≡ some f)
      × ((n : Text) → n ≢ name → find_name n (create s name e).0.names ≡ find_name n s.names)
      × ((n : Text) → find_name n s.names ≢ some f)
unfolding create
create-entry s name (some g) f h = cc
create-entry s name none f h =
    let is_fresh : fresh s.names ≡ f = cc in
    (
      rw (find_name-head name (fresh s.names) s.names) (ap some is_fresh),
      λ n differs. find_name-tail n name (fresh s.names) s.names differs,
      λ n held. absurd (omega (arith, find_name-lt-fresh n s.names f held)),
    )

create-bytes :
    (s : Disk) (name : Text) (e : Option ℕ) (f : ℕ)
    → (create s name e).1 ≡ ok f
    → ((create s name e).0.bytes f ≡ [])
      × ((g : ℕ) → g ≢ f → (create s name e).0.bytes g ≡ s.bytes g)
unfolding create
create-bytes s name (some g) f h = cc
create-bytes s name none f h =
    let is_fresh : fresh s.names ≡ f = cc in
    (
      rw (is_fresh, ==_refl f) refl,
      λ g differs. rw is_fresh (set_bytes-other f g [] s.bytes differs),
    )

create-err :
    (s : Disk) (name : Text) (e : Option ℕ) (k : Errno)
    → (create s name e).1 ≡ err k
    → (create s name e).0 ≡ s
unfolding create
create-err s name (some g) k h = refl
create-err s name none k h = cc

rename-ok :
    (s : Disk) (from to : Text) (e : Option ℕ)
    → find_name from s.names ≡ e
    → (rename s from to e).1 ≡ ok tt
    → (find_name to (rename s from to e).0.names ≡ find_name from s.names)
      × ((n : Text)
          → n ≢ from
          → n ≢ to
          → find_name n (rename s from to e).0.names ≡ find_name n s.names)
      × ((g : ℕ) → (rename s from to e).0.bytes g ≡ s.bytes g)
unfolding rename
rename-ok s from to none held h = cc
rename-ok s from to (some f) held h = (
  find_name-head to f (remove_name from s.names) ∙ sym held,
  λ n a b.
      find_name-tail n to f (remove_name from s.names) b ∙ find_name-remove_name n from s.names a,
  λ g. refl,
)

rename-err :
    (s : Disk) (from to : Text) (e : Option ℕ) (k : Errno)
    → (rename s from to e).1 ≡ err k
    → (rename s from to e).0 ≡ s
unfolding rename
rename-err s from to none k h = refl
rename-err s from to (some f) k h = cc

pub Lawful_memory : Lawful memory watch
unfolding find_name remove_name fresh create rename
Lawful_memory = record {
  create_new-entry = λ s dir name f. create-entry s name (find_name name s.names) f;
  create_new-bytes = λ s dir name f. create-bytes s name (find_name name s.names) f;
  create_new-err = λ s dir name e h.
      let same = create-err s name (find_name name s.names) e h in
      ((λ d n. rw same refl), (λ g. rw same refl));
  fchmod-Same = λ s f mode. ((λ d n. refl), (λ g. refl));
  write_all-SameBut =
      λ s f b. ((λ d n. refl), (λ g h. set_bytes-other f g (s.bytes f ++ b) s.bytes h));
  write_all-ok = λ s f b h. rw (==_refl f) refl;
  sync_all-Same = λ s f. ((λ d n. refl), (λ g. refl));
  renameat-ok = λ s dir from to. rename-ok s from to (find_name from s.names) refl;
  renameat-err = λ s dir from to e h.
      let same = rename-err s from to (find_name from s.names) e h in
      ((λ d n. rw same refl), (λ g. rw same refl));
  unlinkat-SameEntriesBut =
      λ s dir name. ((λ n h. find_name-remove_name n name s.names h), (λ g. refl));
  fsync-Same = λ s dir. ((λ d n. refl), (λ g. refl));
}
