-- ===== src/Manifest/Entries.antt =====
-- The package file that a manifest entry names.
use weft_os.Base.{
  ◌≡◌, refl, subst, ap, ◌∙◌, ◌⊎◌, inl, inr, Bool, true, false, ◌||◌, not, Bool-cases, List, [], ◌∷◌,
  ◌++◌, append_assoc, map, is_empty, all, All, Text, arith, Result, ok, err,
}
use weft_os.Base.Paths.{Component, normal, components, join, IsName, Named, Named-any, Named-names}
use weft_os.Base.Paths.Join.{components-join}
use weft_os.Base.Disk.{Disk, ErrorKind, FileType, regular, folder, link, special}
use weft_os.Manifest.{
  EntryError, not_contained, entry_link, not_a_file, is_normal, os_str, refused, unless, walk,
  entry_path,
}

-- The component whose path has the metadata `t` is not what it must be.
abbrev pub Unusable : Bool → Result ErrorKind FileType → Type 0
Unusable last t =
    ((e : ErrorKind) × (t ≡ err e))
    ⊎ ((t ≡ ok special) ⊎ (((last ≡ true) × (t ≡ ok folder)) ⊎ ((last ≡ false) × (t ≡ ok regular))))

abbrev pub IsLink : Bool → Result ErrorKind FileType → Type 0
IsLink last t = t ≡ ok link

-- The names `names` lead from `at` through directories to the regular file `path`.
abbrev pub LeadsTo : Disk → Text → List Text → Text → Type 0
LeadsTo fs at [] path = ⊥
LeadsTo fs at (n ∷ []) path = (join at n ≡ path) × (fs.symlink_metadata path ≡ ok regular)
LeadsTo fs at (n ∷ m ∷ names) path =
    (fs.symlink_metadata (join at n) ≡ ok folder) × LeadsTo fs (join at n) (m ∷ names) path

-- They lead through directories to one that `Q` holds of.
abbrev pub StopsAt : Disk → Text → List Text → (Bool → Result ErrorKind FileType → Type 0) → Type 0
StopsAt fs at [] Q = ⊥
StopsAt fs at (n ∷ names) Q =
    Q (is_empty names) (fs.symlink_metadata (join at n))
    ⊎ ((fs.symlink_metadata (join at n) ≡ ok folder) × StopsAt fs (join at n) names Q)

-- `entry` is a relative path of these plain names, at least one.
abbrev pub Plain : Text → List Text → Type 0
Plain entry names =
    (components entry ≡ map normal names) × (is_empty names ≡ false) × All IsName names

abbrev pub Entered : Disk → Text → Text → Result EntryError Text → Type 0
Entered fs root entry (ok path) =
    (names : List Text) × Plain entry names
    × LeadsTo fs root names path
    × (components path ≡ components root ++ map normal names)
Entered fs root entry (err (not_contained e)) =
    (e ≡ entry) × ((names : List Text) → Plain entry names → ⊥)
Entered fs root entry (err (entry_link e)) =
    (e ≡ entry) × ((names : List Text) × Plain entry names × StopsAt fs root names IsLink)
Entered fs root entry (err (not_a_file e)) =
    (e ≡ entry) × ((names : List Text) × Plain entry names × StopsAt fs root names Unusable)

-- What the loop returns, from `at`.
abbrev Walked : Disk → Text → List Text → Text → Result EntryError Text → Type 0
Walked fs at names entry (ok path) =
    LeadsTo fs at names path × (components path ≡ components at ++ map normal names)
Walked fs at names entry (err (not_contained e)) = ⊥
Walked fs at names entry (err (entry_link e)) = (e ≡ entry) × StopsAt fs at names IsLink
Walked fs at names entry (err (not_a_file e)) = (e ≡ entry) × StopsAt fs at names Unusable

last-Walked :
    (fs : Disk) (entry at n : Text) (t : Result ErrorKind FileType)
    → IsName n
    → fs.symlink_metadata (join at n) ≡ t
    → Walked fs at (n ∷ []) entry (unless (refused entry true t) (ok (join at n)))
unfolding refused unless
last-Walked fs entry at n (err e) h m = (refl, inl (inl (e, m)))
last-Walked fs entry at n (ok regular) h m = ((refl, m), components-join at n h)
last-Walked fs entry at n (ok folder) h m = (refl, inl (inr (inr (inl (refl, m)))))
last-Walked fs entry at n (ok link) h m = (refl, inl m)
last-Walked fs entry at n (ok special) h m = (refl, inl (inr (inl m)))

-- The loop after a directory.
onwards :
    (fs : Disk) (entry at n m : Text) (names : List Text) (rest : Result EntryError Text)
    → IsName n
    → fs.symlink_metadata (join at n) ≡ ok folder
    → Walked fs (join at n) (m ∷ names) entry rest
    → Walked fs at (n ∷ m ∷ names) entry rest
onwards fs entry at n m names (ok path) h d w = (
  (d, w.0),
  w.1
      ∙ rw (components-join at n h)
          (append_assoc (components at) (normal n ∷ []) (map normal (m ∷ names))),
)
onwards fs entry at n m names (err (not_contained e)) h d w = w
onwards fs entry at n m names (err (entry_link e)) h d w = (w.0, inr (d, w.1))
onwards fs entry at n m names (err (not_a_file e)) h d w = (w.0, inr (d, w.1))

inner-Walked :
    (fs : Disk) (entry at n m : Text) (names : List Text) (t : Result ErrorKind FileType)
    (rest : Result EntryError Text)
    → IsName n
    → fs.symlink_metadata (join at n) ≡ t
    → Walked fs (join at n) (m ∷ names) entry rest
    → Walked fs at (n ∷ m ∷ names) entry (unless (refused entry false t) rest)
unfolding refused unless
inner-Walked fs entry at n m names (err e) rest h d w = (refl, inl (inl (e, d)))
inner-Walked fs entry at n m names (ok regular) rest h d w = (refl, inl (inr (inr (inr (refl, d)))))
inner-Walked fs entry at n m names (ok folder) rest h d w = onwards fs entry at n m names rest h d w
inner-Walked fs entry at n m names (ok link) rest h d w = (refl, inl d)
inner-Walked fs entry at n m names (ok special) rest h d w = (refl, inl (inr (inl d)))

walk-Walked :
    (fs : Disk) (entry at n : Text) (names : List Text)
    → All IsName (n ∷ names)
    → Walked fs at (n ∷ names) entry (walk fs entry at (map normal (n ∷ names)))
unfolding walk os_str
walk-Walked fs entry at n [] h =
    last-Walked fs entry at n (fs.symlink_metadata (join at n)) h.0 refl
walk-Walked fs entry at n (m ∷ names) h =
    inner-Walked fs entry at n m names (fs.symlink_metadata (join at n))
      (walk fs entry (join at n) (map normal (m ∷ names))) h.0 refl
      (walk-Walked fs entry (join at n) m names h.1)

all_normal :
    (cs : List Component) → all is_normal cs ≡ true → (names : List Text) × (cs ≡ map normal names)
unfolding all is_normal
all_normal [] h = ([], refl)
all_normal (normal a ∷ cs) h =
    let (names, e) = all_normal cs h in (a ∷ names, ap (◌∷◌ (normal a)) e)
all_normal (c ∷ cs) h = cc

all-normal : (names : List Text) → all is_normal (map normal names) ≡ true
unfolding all is_normal
all-normal [] = refl
all-normal (a ∷ names) = all-normal names

passes :
    (names : List Text)
    → is_empty names ≡ false
    → (is_empty (map normal names) || not (all is_normal (map normal names))) ≡ false
passes [] h = cc
passes (a ∷ names) h = rw (all-normal (a ∷ names)) refl

false-ne-true : {b : Bool} → b ≡ false → b ≡ true → ⊥
false-ne-true h e = cc

Walked-Entered :
    (fs : Disk) (root entry : Text) (names : List Text) (r : Result EntryError Text)
    → Plain entry names
    → Walked fs root names entry r
    → Entered fs root entry r
Walked-Entered fs root entry names (ok path) p w = (names, p, w.0, w.1)
Walked-Entered fs root entry names (err (not_contained e)) p w = absurd w
Walked-Entered fs root entry names (err (entry_link e)) p w = (w.0, (names, p, w.1))
Walked-Entered fs root entry names (err (not_a_file e)) p w = (w.0, (names, p, w.1))

-- The answer for a manifest entry says what the entry is: the file that its plain names lead to
-- through directories of the package, with no link on the way and never out of the package; not a
-- path of plain names; one with a link on the way; or one that does not end at a regular file.
pub entry_path-Entered :
    (fs : Disk) (package_root entry : Text)
    → Entered fs package_root entry (entry_path fs package_root entry)
unfolding entry_path
entry_path-Entered fs root entry =
    elim (Bool-cases (is_empty (components entry) || not (all is_normal (components entry)))) [
      | inl e ↦ rw e (refl, λ names p. false-ne-true (passes names p.1) (rw p.0 at e))
      | inr e ↦
          let (names, shape) = all_normal (components entry) (ground arith) in
          rw e (go names shape (ground arith))
    ]
  where
    go :
        (names : List Text)
        → components entry ≡ map normal names
        → is_empty names ≡ false
        → Entered fs root entry (walk fs entry root (components entry))
    go [] shape some_name = cc
    go (n ∷ names) shape some_name =
        let named = Named-names (n ∷ names) (subst Named shape (Named-any entry)) in
        rw shape (
          Walked-Entered fs root entry (n ∷ names) (walk fs entry root (map normal (n ∷ names)))
            (shape, refl, named) (walk-Walked fs entry root n names named))
