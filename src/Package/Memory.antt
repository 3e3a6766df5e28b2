-- ===== src/Package/Memory.antt =====
-- A file system of directories in memory, which behaves as `Lawful` says.
use weft_os.Base.{
  ◌≡◌, ◌≢◌, refl, ap, sym, ◌∙◌, ◌==◌, Bool, true, Bool-cases, inl, inr, text_eq→eq, [], ◌∷◌, Option,
  none, some, Text, text_eq, text_eq_refl, Result, ok, err, if◌then◌else◌,
}
use weft_os.Package.{IoKind, not_found, already_exists, Entry, FileSystem}
use weft_os.Package.Migrate.{Lawful, Keeps}

abbrev pub Disk : Type 0
Disk = Text → Option Bool

abbrev pub put : Disk → Text → Option Bool → Disk
put s path e = λ p. if text_eq p path then e else s p

abbrev pub metadata : Option Bool → Result IoKind Entry
metadata none = err not_found
metadata (some d) = ok (record { is_dir = d })

unfoldable pub make_entry : Disk → Text → Option Bool → Disk × Result IoKind (Unit {0})
make_entry s dir none = (put s dir (some true), ok tt)
make_entry s dir (some d) = (s, ok tt)

unfoldable pub rename_entry :
    Disk → Text → Text → Option Bool → Option Bool → Disk × Result IoKind (Unit {0})
rename_entry s from to none none = (s, err not_found)
rename_entry s from to none (some d) = (put (put s to (some d)) from none, ok tt)
rename_entry s from to (some t) e = (s, err already_exists)

-- up to the last `/`
unfoldable pub parent_of : Text → Option Text
parent_of [] = none
parent_of (b ∷ path) = elim (parent_of path) [
  | some p ↦ some (b ∷ p)
  | none ↦ if b == b'/' then some [] else none
]

abbrev pub disk : FileSystem Disk
unfolding make_entry rename_entry parent_of
disk = record {
  symlink_metadata = λ s path. metadata (s path);
  create_dir_all = λ s dir. make_entry s dir (s dir);
  create_private_dir_all = λ s dir. make_entry s dir (s dir);
  rename_no_replace = λ s from to. rename_entry s from to (s to) (s from);
  remove_dir = λ s dir. (put s dir none, ok tt);
  set_private = λ s dir. (s, ok tt);
  parent = parent_of;
}

make_entry-Keeps :
    (s : Disk) (dir : Text) (e : Option Bool) → s dir ≡ e → Keeps disk s (make_entry s dir e).0
unfolding make_entry rename_entry parent_of
make_entry-Keeps s dir (some d) h path m known = known
make_entry-Keeps s dir none h path m known = elim (Bool-cases (text_eq path dir)) [
  | inl e ↦ absurd (missing (s path) m known (ap s (text_eq→eq path dir e) ∙ h))
  | inr e ↦ rw e known
]
  where
    missing : (e : Option Bool) (m : Entry) → metadata e ≡ ok m → e ≡ none → ⊥
    missing none m known h = cc
    missing (some d) m known h = cc

rename_entry-refused :
    (s : Disk) (from to : Text) (t e : Option Bool) (k : IoKind)
    → (rename_entry s from to t e).1 ≡ err k
    → (rename_entry s from to t e).0 ≡ s
unfolding rename_entry
rename_entry-refused s from to none none k h = refl
rename_entry-refused s from to none (some d) k h = cc
rename_entry-refused s from to (some t) e k h = refl

rename_entry-moves :
    (s : Disk) (from to : Text) (t e : Option Bool)
    → s to ≡ t
    → s from ≡ e
    → (rename_entry s from to t e).1 ≡ ok tt
    → (metadata ((rename_entry s from to t e).0 to) ≡ metadata (s from))
      × (metadata ((rename_entry s from to t e).0 from) ≡ err not_found)
unfolding rename_entry
rename_entry-moves s from to none none ht he h = cc
rename_entry-moves s from to none (some d) ht he h = elim (Bool-cases (text_eq to from)) [
  | inl e ↦ absurd (differ (sym ht ∙ (ap s (text_eq→eq to from e) ∙ he)))
  | inr e ↦ (rw (e, text_eq_refl to, he) refl, rw (text_eq_refl from) refl)
]
  where
    differ : ◌≢◌ {A = Option Bool} none (some d)
    differ h = cc
rename_entry-moves s from to (some t) e ht he h = cc

pub Lawful_disk : Lawful disk
unfolding make_entry rename_entry parent_of
Lawful_disk = record {
  create_dir_all-Keeps = λ s dir. make_entry-Keeps s dir (s dir) refl;
  rename-refused = λ s from to k. rename_entry-refused s from to (s to) (s from) k;
  rename-moves = λ s from to. rename_entry-moves s from to (s to) (s from) refl refl;
  remove_dir-keeps = λ s dir path apart. elim (Bool-cases (text_eq path dir)) [
    | inl e ↦ absurd (apart (text_eq→eq path dir e))
    | inr e ↦ rw e refl
  ];
}
