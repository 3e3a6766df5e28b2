-- ===== src/Pack/Switch/Around.antt =====
-- About what `activate` does around the switch: the link kept for rollback and temporary names.
use weft_os.Base.{
  ◌≡◌, refl, sym, ◌∙◌, ap, ℕ, Bool, true, false, Bool-cases, inl, inr, Text, text_eq, codes, List,
  [], ◌∷◌, ◌++◌, Result, ok, err, is_ok, arith, Option, none, some,
}
use weft_os.Base.Disk.{ErrorKind, not_found}
use weft_os.Base.Paths.{join}
use weft_os.Base.Paths.Below.{within, spot, within-spot}
use weft_os.Package.{is_valid_app_id}
use weft_os.Store.{revisions_of, Active, revision, directory}
use weft_os.Pack.{Calls, previous_link, replace_link}
use weft_os.Pack.Switch.{drop_stale, drop_previous, keep_current, restore_link, restore_kept}
use weft_os.Pack.Seen.{Entry, Local}
use weft_os.Pack.Seen.Paths.{Clear, hidden, join-revisions_of}
use weft_os.Pack.Seen.Small.{sync_dir-same, replace_link-same}

module _ {ℓ} {S File : Type ℓ} (k : Calls S File) (seen : S → Text → List Entry) where
  module _ (here : Local k seen) (store id : Text) (valid : is_valid_app_id id ≡ true) where
    -- the two names that `replace_link` uses for the link kept for rollback
    pub previous_apart :
        (y : Text)
        → Clear hidden y
        → within (join (revisions_of store id) previous_link) (spot store y) ≡ false
    unfolding weft_os.Base.starts_with
    previous_apart y clear =
        rw (join-revisions_of store id valid previous_link refl, within-spot store)
          (clear (id ++ (b'/' ∷ previous_link)))

    pub temporary_apart :
        (y random : Text)
        → Clear hidden y
        → within
            (join (revisions_of store id) (b'.' ∷ (previous_link ++ (b'-' ∷ random))))
            (spot store y)
          ≡ false
    unfolding weft_os.Base.starts_with
    temporary_apart y random clear =
        let name = b'.' ∷ (previous_link ++ (b'-' ∷ random)) in
        rw (join-revisions_of store id valid name refl, within-spot store)
          (clear (id ++ (b'/' ∷ name)))

    module _ (y : Text) (clear : Clear hidden y) where
      pub replaced-same :
          (s : S) (target : Text)
          → seen (replace_link k s (revisions_of store id) previous_link target).0 (spot store y)
            ≡ seen s (spot store y)
      replaced-same s target =
          replace_link-same k seen here s (revisions_of store id) previous_link target
            (spot store y) (previous_apart y clear) (λ random. temporary_apart y random clear)

      pub removed-same :
          (s : S)
          → seen (k.remove_file s (join (revisions_of store id) previous_link)).0 (spot store y)
            ≡ seen s (spot store y)
      removed-same s = here.remove_file-else s _ (spot store y) (previous_apart y clear)

      drop_stale-same :
          (s : S) (answer : Result ErrorKind (Unit {0})) (dir : Text)
          → seen (drop_stale k s answer dir).0 (spot store y) ≡ seen s (spot store y)
      unfolding drop_stale
      drop_stale-same s (ok done) dir = sync_dir-same k seen here s dir (spot store y)
      drop_stale-same s (err not_found) dir = sync_dir-same k seen here s dir (spot store y)
      drop_stale-same s (err e) dir = refl

      drop_previous-same :
          (s : S)
          → seen (drop_previous k s (revisions_of store id)).0 (spot store y)
            ≡ seen s (spot store y)
      unfolding drop_previous
      drop_previous-same s = drop_stale-same _ _ _ ∙ removed-same s

      pub keep_current-same :
          (s : S) (current : Option Active) (rev : Text)
          → seen (keep_current k s current (revisions_of store id) rev).0 (spot store y)
            ≡ seen s (spot store y)
      unfolding keep_current
      keep_current-same s none rev = drop_previous-same s
      keep_current-same s (some (directory d)) rev = drop_previous-same s
      keep_current-same s (some (revision name d)) rev = elim (Bool-cases (text_eq name rev)) [
        | inl e ↦ rw e refl
        | inr e ↦ rw e (replaced-same s name)
      ]

      restore_link-same :
          (s : S) (before : Result ErrorKind Text)
          → seen (restore_link k s before (revisions_of store id)) (spot store y)
            ≡ seen s (spot store y)
      unfolding restore_link
      restore_link-same s (ok target) = replaced-same s target
      restore_link-same s (err e) = removed-same s

      pub restore_kept-same :
          (s : S) (current : Option Active) (before : Result ErrorKind Text) (rev : Text)
          → seen (restore_kept k s current before (revisions_of store id) rev) (spot store y)
            ≡ seen s (spot store y)
      unfolding restore_kept
      restore_kept-same s none before rev = refl
      restore_kept-same s (some (directory d)) before rev = refl
      restore_kept-same s (some (revision name d)) before rev =
          elim (Bool-cases (text_eq name rev)) [
            | inl e ↦ rw e refl
            | inr e ↦ rw e (restore_link-same s before)
          ]
