-- ===== src/Pack/Seen/Small.antt =====
-- What the small operations of the packaging tool leave as it was.
use weft_os.Base.{◌≡◌, refl, ◌∙◌, false, Text, codes, List, ◌∷◌, ◌++◌, Result, ok, err, starts_with}
use weft_os.Base.Disk.{ErrorKind}
use weft_os.Base.Paths.{join}
use weft_os.Base.Steps.{after-same}
use weft_os.Base.Paths.Below.{within, within-spot, spot}
use weft_os.Pack.{
  Calls, context, sync_dir, temporary_link, replace_link, remove_claimed, renamed_link, rename_link,
  trashed,
}
use weft_os.Pack.Seen.{Entry, Local}
use weft_os.Pack.Seen.Paths.{Clear}

module _ {ℓ} {S File : Type ℓ} (k : Calls S File) (seen : S → Text → List Entry)
    (laws : Local k seen) where
  pub sync_dir-same : (s : S) (dir q : Text) → seen (sync_dir k s dir).0 q ≡ seen s q
  unfolding sync_dir
  sync_dir-same s dir q = laws.sync-same s dir q

  -- An operation on hidden names of the store leaves `y` in the store.
  module _ (store y : Text) where
    pub within-Clear :
        (start rest : Text)
        → Clear start y
        → within (spot store (start ++ rest)) (spot store y) ≡ false
    within-Clear start rest clear = rw (within-spot store) (clear rest)

    pub temporary_link-same :
        (s : S) (id target : Text)
        → Clear (codes ".link-") y
        → seen (temporary_link k s store id target).0 (spot store y) ≡ seen s (spot store y)
    unfolding temporary_link starts_with
    temporary_link-same s id target clear =
        let (s1, name) = k.random_name s in
        laws.symlink-else s1 target (spot store (codes ".link-" ++ (id ++ (b'-' ∷ name))))
          (spot store y) (within-Clear (codes ".link-") (id ++ (b'-' ∷ name)) clear)
        ∙ laws.random_name-same s (spot store y)

    trashed-same :
        (s : S) (answer : Result ErrorKind (Unit {0})) (trash : Text)
        → within trash (spot store y) ≡ false
        → seen (trashed k s answer trash) (spot store y) ≡ seen s (spot store y)
    unfolding trashed
    trashed-same s (err e) trash apart = refl
    trashed-same s (ok done) trash apart = laws.remove_dir_all-else s trash (spot store y) apart

    pub remove_claimed-same :
        (s : S) (dir : Text)
        → within dir (spot store y) ≡ false
        → Clear (codes ".trash-") y
        → seen (remove_claimed k s store dir) (spot store y) ≡ seen s (spot store y)
    unfolding remove_claimed starts_with
    remove_claimed-same s dir apart clear =
        let (s1, name) = k.random_name s in
        let trash = spot store (codes ".trash-" ++ name) in
        let (s2, answer) = k.rename s1 dir trash in
        let away = within-Clear (codes ".trash-") name clear in
        trashed-same s2 answer trash away
        ∙ (laws.rename-else s1 dir trash (spot store y) apart away
            ∙ laws.random_name-same s (spot store y))

  renamed_link-same :
      (s : S) (answer : Result ErrorKind (Unit {0})) (dir name temporary q : Text)
      → within temporary q ≡ false
      → seen (renamed_link k s answer dir name temporary).0 q ≡ seen s q
  unfolding renamed_link
  renamed_link-same s (err e) dir name temporary q apart = laws.remove_file-else s temporary q apart
  renamed_link-same s (ok done) dir name temporary q apart = sync_dir-same s dir q

  rename_link-same :
      (s : S) (dir name temporary q : Text)
      → within temporary q ≡ false
      → within (join dir name) q ≡ false
      → seen (rename_link k dir name temporary s).0 q ≡ seen s q
  unfolding rename_link
  rename_link-same s dir name temporary q apart away =
      let (s', answer) = k.rename s temporary (join dir name) in
      renamed_link-same s' answer dir name temporary q apart
      ∙ laws.rename-else s temporary (join dir name) q apart away

  -- A replaced link changes its own name and a temporary one only.
  pub replace_link-same :
      (s : S) (dir name target q : Text)
      → within (join dir name) q ≡ false
      → ((random : Text) → within (join dir (b'.' ∷ (name ++ (b'-' ∷ random)))) q ≡ false)
      → seen (replace_link k s dir name target).0 q ≡ seen s q
  unfolding replace_link
  replace_link-same s dir name target q apart temporary_apart =
      let (s1, random) = k.random_name s in
      let temporary = join dir (b'.' ∷ (name ++ (b'-' ∷ random))) in
      let (s2, made) = k.symlink s1 target temporary in
      after-same (λ t. seen t q) s (s2, context (codes "create " ++ temporary) made)
        (λ t done. rename_link k dir name temporary t)
        (laws.symlink-else s1 target temporary q (temporary_apart random)
          ∙ laws.random_name-same s q)
        λ t done. rename_link-same t dir name temporary q (temporary_apart random) apart
