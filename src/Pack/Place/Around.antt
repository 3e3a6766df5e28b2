-- ===== src/Pack/Place/Around.antt =====
-- About `create_store` and `sync_tree`, and the paths that they change.
use weft_os.Base.{
  ◌≡◌, refl, ◌∙◌, ℕ, zero, suc, Bool, false, Bool-cases, inl, inr, List, [], ◌∷◌, ◌++◌, All, filter,
  Text, codes, text_eq, Result, ok, err,
}
use weft_os.Base.Paths.{join}
use weft_os.Base.Disk.{ErrorKind, already_exists, FileType, folder}
use weft_os.Base.Steps.{after, after-same}
use weft_os.Pack.{Calls, PackError, context, sync_dir, is_there}
use weft_os.Pack.Place.{
  missing_dirs, opened_to_all, created_dir, create_missing, require_dir, create_store, sync_entry,
  sync_entries, sync_tree,
}
use weft_os.Pack.Seen.{Entry, Local}
use weft_os.Pack.Seen.Small.{sync_dir-same}

All-snoc {ℓ κ} :
    {A : Type ℓ} (P : A → Type κ) (xs : List A) (x : A) → All P xs → P x → All P (xs ++ (x ∷ []))
All-snoc P [] x h p = (p, tt)
All-snoc P (y ∷ xs) x h p = (h.0, All-snoc P xs x h.1 p)

All-missing_dirs {κ} :
    (P : Text → Type κ) (there : Text → Bool) (dirs : List Text)
    → All P dirs
    → All P (missing_dirs there dirs)
unfolding missing_dirs
All-missing_dirs P there [] h = tt
All-missing_dirs P there (d ∷ dirs) h = elim (Bool-cases (there d)) [
  | inl e ↦ rw e tt
  | inr e ↦ rw e (All-snoc P _ d (All-missing_dirs P there dirs h.1) h.0)
]

All-filter {ℓ κ} :
    {A : Type ℓ} (P : A → Type κ) (p : A → Bool) (xs : List A) → All P xs → All P (filter p xs)
unfolding filter
All-filter P p [] h = tt
All-filter P p (x ∷ xs) h = elim (Bool-cases (p x)) [
  | inl e ↦ rw e (h.0, All-filter P p xs h.1)
  | inr e ↦ rw e (All-filter P p xs h.1)
]

module _ {ℓ} {S File : Type ℓ} (k : Calls S File) (seen : S → Text → List Entry)
    (here : Local k seen) (q : Text) where
  -- None of these is `q`.
  abbrev pub Others : List Text → Type 0
  Others dirs = All (λ dir. text_eq dir q ≡ false) dirs

  opened_to_all-same :
      (s : S) (answer : Result ErrorKind (Unit {0})) (dir : Text)
      → text_eq dir q ≡ false
      → seen (opened_to_all k s answer dir).0 q ≡ seen s q
  unfolding opened_to_all
  opened_to_all-same s (ok done) dir h = refl
  opened_to_all-same s (err e) dir h = here.remove_dir-else s dir q h

  created_dir-same :
      (s : S) (answer : Result ErrorKind (Unit {0})) (dir : Text)
      → text_eq dir q ≡ false
      → seen (created_dir k s answer dir).0 q ≡ seen s q
  unfolding created_dir
  created_dir-same s (err already_exists) dir h = refl
  created_dir-same s (err e) dir h = refl
  created_dir-same s (ok done) dir h = opened_to_all-same _ _ dir h ∙ here.open_to_all-same s dir q

  create_missing-same :
      (s : S) (dirs : List Text) → Others dirs → seen (create_missing k s dirs).0 q ≡ seen s q
  unfolding create_missing
  create_missing-same s [] h = refl
  create_missing-same s (dir ∷ dirs) h =
      let (s', answer) = k.create_dir s dir in
      after-same (λ t. seen t q) s (created_dir k s' answer dir) (λ t done. create_missing k t dirs)
        (created_dir-same s' answer dir h.0 ∙ here.create_dir-else s dir q h.0)
        λ t done. create_missing-same t dirs h.1

  require_dir-same : (s : S) (root : Text) → seen (require_dir k s root).0 q ≡ seen s q
  unfolding require_dir
  require_dir-same s root = elim (Bool-cases (k.is_dir s root)) [
    | inl e ↦ rw e refl
    | inr e ↦ rw e refl
  ]

  pub create_store-same :
      (s : S) (root : Text)
      → Others (k.ancestors root)
      → seen (create_store k s root).0 q ≡ seen s q
  unfolding create_store
  create_store-same s root h =
      after-same (λ t. seen t q) s (create_missing k s _) (λ t done. require_dir k t root)
        (create_missing-same s _ (
          All-missing_dirs (λ dir. text_eq dir q ≡ false) (is_there k s) _
            (All-filter (λ dir. text_eq dir q ≡ false) _ _ h)))
        λ t done. require_dir-same t root

  sync_entry-same :
      (deeper : S → Text → S × Result PackError (Unit {0})) (s : S) (path : Text)
      (answer : Result ErrorKind FileType)
      → ((t : S) (dir : Text) → seen (deeper t dir).0 q ≡ seen t q)
      → seen (sync_entry k deeper s path answer).0 q ≡ seen s q
  unfolding sync_entry
  sync_entry-same deeper s path (err e) h = refl
  sync_entry-same deeper s path (ok folder) h = h s path
  sync_entry-same deeper s path (ok kind) h = here.sync-same s path q

  sync_entries-same :
      (deeper : S → Text → S × Result PackError (Unit {0})) (dir : Text) (s : S)
      (entries : List (Result ErrorKind Text))
      → ((t : S) (dir : Text) → seen (deeper t dir).0 q ≡ seen t q)
      → seen (sync_entries k deeper dir s entries).0 q ≡ seen s q
  unfolding sync_entries
  sync_entries-same deeper dir s [] h = refl
  sync_entries-same deeper dir s (err e ∷ entries) h = refl
  sync_entries-same deeper dir s (ok name ∷ entries) h =
      after-same (λ t. seen t q) s (sync_entry k deeper s (join dir name) _)
        (λ t done. sync_entries k deeper dir t entries)
        (sync_entry-same deeper s (join dir name) _ h)
        λ t done. sync_entries-same deeper dir t entries h

  pub sync_tree-same :
      (fuel : ℕ) (s : S) (dir : Text) → seen (sync_tree k fuel s dir).0 q ≡ seen s q
  unfolding sync_tree
  sync_tree-same zero s dir = refl
  sync_tree-same (suc fuel) s dir =
      after-same (λ t. seen t q) s (s, context (codes "read " ++ dir) ((k.report s).read_dir dir))
        (λ s1 entries.
          after (sync_entries k (sync_tree k fuel) dir s1 entries) λ s2 done. sync_dir k s2 dir)
        refl
        λ s1 entries.
          after-same (λ t. seen t q) s1 (sync_entries k (sync_tree k fuel) dir s1 entries)
            (λ s2 done. sync_dir k s2 dir)
            (sync_entries-same (sync_tree k fuel) dir s1 entries (sync_tree-same fuel))
            λ s2 done. sync_dir-same k seen here s2 dir q
