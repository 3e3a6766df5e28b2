-- ===== src/Pack/Place/Steps.antt =====
-- About the steps of `place` before the activation, and its undoing: the paths that they change.
use weft_os.Base.{
  ◌≡◌, refl, ◌∙◌, ℕ, Bool, true, false, List, ◌++◌, Option, none, some, Text, codes, text_eq,
  text_eq_refl, Result, ok, err, starts_with,
}
use weft_os.Base.Paths.{join}
use weft_os.Base.Paths.Below.{within, spot}
use weft_os.Base.Disk.{ErrorKind}
use weft_os.Base.Steps.{after-same, if-same}
use weft_os.Package.{is_valid_app_id}
use weft_os.Store.{revisions_of, revisions_dir}
use weft_os.Store.Pin.{try_claim}
use weft_os.Store.Pin.Quiet.{try_claim-same}
use weft_os.Trust.{Crypto}
use weft_os.Pack.{Calls, PackError, sync_dir, is_there, remove_claimed, same_revision}
use weft_os.Pack.Place.{
  revision_name, Placing, settled, exchanged, replace_revision, moved, place_revision,
  remove_created, remove_record, undo,
}
use weft_os.Pack.Seen.{Entry, Local}
use weft_os.Pack.Seen.Paths.{Clear-app_id, hidden, join-revisions_of}
use weft_os.Pack.Seen.Small.{sync_dir-same, within-Clear, remove_claimed-same}

-- whether a result names the revision `rev`, if it is no error
abbrev pub names_it : Text → Result PackError Text → Bool
names_it rev r = elim r [ err e ↦ true | ok rev' ↦ text_eq rev' rev ]

-- whether what was created, if anything, is `q` or above it
abbrev pub reaches : Option Text → Text → Bool
reaches o q = elim o [ none ↦ false | some path ↦ within path q ]

module _ {ℓ} {S File : Type ℓ} (k : Calls S File) (seen : S → Text → List Entry)
    (here : Local k seen) (store id : Text) (valid : is_valid_app_id id ≡ true) where
  -- none of the steps before the activation changes the package's name
  hidden_apart : (x : Text) → within (spot store (hidden ++ x)) (spot store id) ≡ false
  hidden_apart x =
      within-Clear k seen here store id hidden x λ r. Clear-app_id id (codes "revisions/") valid r

  revision_apart :
      (rev : Text)
      → starts_with b'/' rev ≡ false
      → within (join (revisions_of store id) rev) (spot store id) ≡ false
  revision_apart rev h = rw (join-revisions_of store id valid rev h) (hidden_apart _)

  settled-same :
      (st : Placing k) (rev : Text)
      → seen (settled k st store id rev).0.0 (spot store id) ≡ seen st.0 (spot store id)
  unfolding settled
  settled-same (s, created) rev =
      after-same (λ t. seen t (spot store id)) s (sync_dir k s (revisions_of store id))
        (λ t done. sync_dir k t (join store revisions_dir))
        (sync_dir-same k seen here s _ (spot store id))
        λ t done. sync_dir-same k seen here t _ (spot store id)

  module _ (staging rev : Text) (apart : within staging (spot store id) ≡ false)
      (plain : starts_with b'/' rev ≡ false) where
    exchanged-same :
        (s : S) (answer : Result ErrorKind (Unit {0})) (claim : File)
        → seen (exchanged k s answer claim staging store id rev).0.0 (spot store id)
          ≡ seen s (spot store id)
    unfolding exchanged
    exchanged-same s (err e) claim = here.close-same s claim (spot store id)
    exchanged-same s (ok done) claim =
        settled-same (k.locks.close (remove_claimed k s store staging) claim, none) rev
        ∙ (here.close-same _ claim (spot store id)
            ∙ remove_claimed-same k seen here store id s staging apart
                λ r. Clear-app_id id (codes "trash-") valid r)

    replace_revision-same :
        (m : S × Result ErrorKind (Option File))
        → seen (replace_revision k m staging store id rev).0.0 (spot store id)
          ≡ seen m.0 (spot store id)
    unfolding replace_revision
    replace_revision-same (s, err e) = refl
    replace_revision-same (s, ok none) = refl
    replace_revision-same (s, ok (some claim)) =
        exchanged-same _ _ claim
        ∙ here.exchange-else s staging _ (spot store id) apart (revision_apart rev plain)

    moved-same :
        (s : S) (answer : Result ErrorKind (Unit {0}))
        → seen (moved k s answer staging store id rev).0.0 (spot store id) ≡ seen s (spot store id)
    unfolding moved
    moved-same s (err e) = refl
    moved-same s (ok done) = settled-same (s, some (join (revisions_of store id) rev)) rev

    named-names_it :
        (r : Result PackError (Unit {0}))
        → names_it rev (elim r [ err e ↦ err e | ok done ↦ ok rev ]) ≡ true
    named-names_it (err e) = refl
    named-names_it (ok done) = text_eq_refl rev

    settled-names_it : (st : Placing k) → names_it rev (settled k st store id rev).1 ≡ true
    unfolding settled
    settled-names_it (s, created) = named-names_it _

    exchanged-names_it :
        (s : S) (answer : Result ErrorKind (Unit {0})) (claim : File)
        → names_it rev (exchanged k s answer claim staging store id rev).1 ≡ true
    unfolding exchanged
    exchanged-names_it s (err e) claim = refl
    exchanged-names_it s (ok done) claim =
        settled-names_it (k.locks.close (remove_claimed k s store staging) claim, none)

    replaced-names_it :
        (m : S × Result ErrorKind (Option File))
        → names_it rev (replace_revision k m staging store id rev).1 ≡ true
    unfolding replace_revision
    replaced-names_it (s, err e) = refl
    replaced-names_it (s, ok none) = refl
    replaced-names_it (s, ok (some claim)) = exchanged-names_it _ _ claim

    moved-names_it :
        (s : S) (answer : Result ErrorKind (Unit {0}))
        → names_it rev (moved k s answer staging store id rev).1 ≡ true
    unfolding moved
    moved-names_it s (err e) = refl
    moved-names_it s (ok done) = settled-names_it (s, some (join (revisions_of store id) rev))

    exchanged_none :
        (s : S) (answer : Result ErrorKind (Unit {0})) (claim : File)
        → reaches (exchanged k s answer claim staging store id rev).0.1 (spot store id) ≡ false
    unfolding exchanged settled
    exchanged_none s (err e) claim = refl
    exchanged_none s (ok done) claim = refl

    replaced_none :
        (m : S × Result ErrorKind (Option File))
        → reaches (replace_revision k m staging store id rev).0.1 (spot store id) ≡ false
    unfolding replace_revision
    replaced_none (s, err e) = refl
    replaced_none (s, ok none) = refl
    replaced_none (s, ok (some claim)) = exchanged_none _ _ claim

    moved-reaches :
        (s : S) (answer : Result ErrorKind (Unit {0}))
        → reaches (moved k s answer staging store id rev).0.1 (spot store id) ≡ false
    unfolding moved settled
    moved-reaches s (err e) = refl
    moved-reaches s (ok done) = revision_apart rev plain

    module _ (others : S → S) {Key Signature : Type 0} (c : Crypto Key Signature)
        (is_utf8 : Text → Bool) (fuel : ℕ)
        (quiet : (s : S) → seen (others s) (spot store id) ≡ seen s (spot store id)) where
      pub place_revision-same :
          (s : S)
          → seen (place_revision k others c is_utf8 fuel s staging store id rev).0.0 (spot store id)
            ≡ seen s (spot store id)
      unfolding place_revision
      place_revision-same s =
          let dir = join (revisions_of store id) rev in
          let q = spot store id in
          if-same (λ (st : Placing k × Result PackError Text). seen st.0.0 q) (is_there k s dir) _ _
            (seen s q)
            (λ e.
              if-same (λ (st : Placing k × Result PackError Text). seen st.0.0 q)
                (same_revision k (revision_name k others c is_utf8 fuel) s dir staging rev) _ _
                (seen s q) (λ f. here.remove_dir_all-else s staging q apart)
                λ f.
                  replace_revision-same (try_claim k.locks others s dir)
                  ∙ try_claim-same k.locks others (λ t. seen t q) quiet
                      (λ t file. here.try_lock-same t file q) (λ t file. here.close-same t file q) s
                      dir)
            λ e.
              moved-same _ _
              ∙ here.rename_no_replace-else s staging dir q apart (revision_apart rev plain)

      pub place_revision-names_it :
          (s : S)
          → names_it rev (place_revision k others c is_utf8 fuel s staging store id rev).1 ≡ true
      unfolding place_revision
      place_revision-names_it s =
          let dir = join (revisions_of store id) rev in
          if-same (λ (st : Placing k × Result PackError Text). names_it rev st.1) (is_there k s dir)
            _ _ true
            (λ e.
              if-same (λ (st : Placing k × Result PackError Text). names_it rev st.1)
                (same_revision k (revision_name k others c is_utf8 fuel) s dir staging rev) _ _ true
                (λ f. text_eq_refl rev) λ f. replaced-names_it (try_claim k.locks others s dir))
            λ e. moved-names_it _ _

      -- what the placement created is not above the package's name
      pub place_revision-reaches :
          (s : S)
          → reaches
              (place_revision k others c is_utf8 fuel s staging store id rev).0.1
              (spot store id)
            ≡ false
      unfolding place_revision
      place_revision-reaches s =
          let dir = join (revisions_of store id) rev in
          let q = spot store id in
          if-same (λ (st : Placing k × Result PackError Text). reaches st.0.1 q) (is_there k s dir)
            _ _ false
            (λ e.
              if-same (λ (st : Placing k × Result PackError Text). reaches st.0.1 q)
                (same_revision k (revision_name k others c is_utf8 fuel) s dir staging rev) _ _
                false (λ f. refl) λ f. replaced_none (try_claim k.locks others s dir))
            λ e. moved-reaches _ _

  remove_created-same :
      (s : S) (created : Option Text)
      → reaches created (spot store id) ≡ false
      → seen (remove_created k s created) (spot store id) ≡ seen s (spot store id)
  unfolding remove_created
  remove_created-same s none h = refl
  remove_created-same s (some dir) h = here.remove_dir_all-else s dir (spot store id) h

  remove_record-same :
      (s : S) (record_path : Option Text)
      → reaches record_path (spot store id) ≡ false
      → seen (remove_record k s record_path) (spot store id) ≡ seen s (spot store id)
  unfolding remove_record
  remove_record-same s none h = refl
  remove_record-same s (some path) h = here.remove_file-else s path (spot store id) h

  pub undone-same :
      (st : Placing k) (e : PackError) (staging : Text) (record_path : Option Text)
      → within staging (spot store id) ≡ false
      → reaches st.1 (spot store id) ≡ false
      → reaches record_path (spot store id) ≡ false
      → seen (undo k (st, err e) staging record_path).0 (spot store id) ≡ seen st.0 (spot store id)
  unfolding undo
  undone-same (s, created) e staging record_path apart made recorded =
      remove_record-same _ record_path recorded
      ∙ (remove_created-same _ created made
          ∙ here.remove_dir_all-else s staging (spot store id) apart)
