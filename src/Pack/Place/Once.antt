-- ===== src/Pack/Place/Once.antt =====
-- About `place`: what becomes of the entry at the package's name.
use weft_os.Base.{
  ◌≡◌, refl, sym, ◌∙◌, subst, ℕ, Bool, true, false, List, [], ◌∷◌, All, Option, none, Text, text_eq,
  text_eq_refl, text_eq→eq, Result, ok, err, arith, starts_with, all, ok-injective, bind-eq-ok,
  is_digit, ◌||◌, ◌&&◌, leb,
}
use weft_os.Base.Paths.{join}
use weft_os.Base.Paths.Below.{within, spot}
use weft_os.Base.Steps.{after, after-same, after-ind}
use weft_os.Package.{is_valid_app_id}
use weft_os.Store.{revisions_of, link_target}
use weft_os.Trust.{Crypto}
use weft_os.Pack.{inventory_failed, Calls, PackError}
use weft_os.Pack.Place.{
  Admission, create_store, sync_tree, revision_name, Placing, place_revision, prepare_store,
  prepare, in_revision, activate_placed, undo, placed, place,
}
use weft_os.Pack.Place.Steps.{
  reaches, place_revision-same, place_revision-reaches, place_revision-names_it, names_it,
  undone-same,
}
use weft_os.Trust.Inventory.{Failure, content_digest}
use weft_os.Trust.Inventory.Lines.{CryptoLaws}
use weft_os.Pack.Place.Around.{Others, create_store-same, sync_tree-same}
use weft_os.Pack.Switch.Once.{Switched, activate-Switched}
use weft_os.Pack.Seen.{Entry, link_to, Local, Atomic}
use weft_os.Pack.Seen.Paths.{join-app_id}

all_hex-plain :
    (s : Text)
    → all (λ b. is_digit b || (leb b'a' b && leb b b'f')) s ≡ true
    → starts_with b'/' s ≡ false
unfolding all starts_with
all_hex-plain [] h = refl
all_hex-plain (b ∷ s) h = ground arith

abbrev end {ℓ} : {S : Type ℓ} → S → Text → S × Result PackError Text
end s rev = (s, ok rev)

module _ {ℓ} {S File : Type ℓ} (k : Calls S File) (seen : S → Text → List Entry) (others : S → S)
    {Key Signature : Type 0} (c : Crypto Key Signature) (is_utf8 : Text → Bool) (fuel : ℕ) where
  -- On success the path got the link to the revision that the staged content names, and nothing
  -- else; an error left it as it was.
  abbrev pub Placed : Text → Text → Text → S → S × Result PackError Text → Type 0
  Placed path id staging s (t, ok rev) =
      (revision_name k others c is_utf8 fuel s staging ≡ ok rev)
      × (seen t path ≡ link_to (link_target id rev) ∷ seen s path)
  Placed path id staging s (t, err e) = seen t path ≡ seen s path

  revision_name-plain :
      CryptoLaws c
      → (s : S) (dir rev : Text) → revision_name k others c is_utf8 fuel s dir ≡ ok rev
      → starts_with b'/' rev ≡ false
  unfolding revision_name
  revision_name-plain laws s dir rev h =
      let (digest, e, shown) = bind-eq-ok (content_digest c is_utf8 (k.report s) fuel dir) _ h in
      rw⁻¹ (ok-injective shown) (all_hex-plain (c.hex_encode digest) (laws.encode-digits digest))

  module _ (here : Local k seen) (atomic : Atomic k seen) (crypto : CryptoLaws c) (store id : Text)
      (valid : is_valid_app_id id ≡ true)
      (quiet : (s : S) → seen (others s) (spot store id) ≡ seen s (spot store id))
      (above : Others k seen here (spot store id) (k.ancestors (revisions_of store id)))
      (staging : Text) (apart : within staging (spot store id) ≡ false) where
    prepare_store-same :
        (s : S) (rev : Text)
        → seen (prepare_store k others c is_utf8 fuel s staging store id rev).0 (spot store id)
          ≡ seen s (spot store id)
    unfolding prepare_store
    prepare_store-same s rev =
        after-same (λ t. seen t (spot store id)) s (create_store k s (revisions_of store id))
          (λ s1 done. after (sync_tree k fuel s1 staging) λ s2 done'. end s2 rev)
          (create_store-same k seen here (spot store id) s (revisions_of store id) above)
          λ s1 done.
            after-same (λ t. seen t (spot store id)) s1 (sync_tree k fuel s1 staging)
              (λ s2 done'. end s2 rev) (sync_tree-same k seen here (spot store id) fuel s1 staging)
              λ s2 done'. refl

    prepare_store-names_it :
        (s : S) (rev : Text)
        → names_it rev (prepare_store k others c is_utf8 fuel s staging store id rev).1 ≡ true
    unfolding prepare_store
    prepare_store-names_it s rev =
        after-ind (λ m. names_it rev m.1 ≡ true) (create_store k s (revisions_of store id))
          (λ s1 done. after (sync_tree k fuel s1 staging) λ s2 done'. end s2 rev) (λ t e. refl)
          λ s1 done.
            after-ind (λ m. names_it rev m.1 ≡ true) (sync_tree k fuel s1 staging)
              (λ s2 done'. end s2 rev) (λ t e. refl) λ s2 done'. text_eq_refl rev

    module _ (record_path : Option Text)
        (recorded : reaches record_path (spot store id) ≡ false) where
      activated-Placed :
          (s t : S) (created : Option Text) (rev : Text) (a : S × Result PackError (Unit {0}))
          → revision_name k others c is_utf8 fuel s staging ≡ ok rev
          → seen t (spot store id) ≡ seen s (spot store id)
          → reaches created (spot store id) ≡ false
          → Switched k seen (spot store id) (link_target id rev) t a
          → Placed (spot store id) id staging s (
              undo k
                ((a.0, created), elim a.1 [ err e ↦ err e | ok done ↦ ok rev ])
                staging
                record_path)
      unfolding undo
      activated-Placed s t created rev (u, err e) name same made h =
          undone-same k seen here store id valid (u, created) e staging record_path apart made
            recorded
          ∙ (h ∙ same)
      activated-Placed s t created rev (u, ok done) name same made h = (name, rw⁻¹ same h)

      revised-Placed :
          (s : S) (rev : Text) (n : Placing k × Result PackError Text)
          → revision_name k others c is_utf8 fuel s staging ≡ ok rev
          → seen n.0.0 (spot store id) ≡ seen s (spot store id)
          → reaches n.0.1 (spot store id) ≡ false
          → names_it rev n.1 ≡ true
          → Placed
              (spot store id)
              id
              staging
              s
              (undo k (after n (λ st r. activate_placed k store id st r)) staging record_path)
      unfolding activate_placed undo
      revised-Placed s rev ((t, created), err e) name same made named =
          undone-same k seen here store id valid (t, created) e staging record_path apart made
            recorded
          ∙ same
      revised-Placed s rev ((t, created), ok r) name same made named =
          activated-Placed s t created r _ (rw (text_eq→eq r rev named) name) same made (
            rw⁻¹ (join-app_id store id valid)
              (activate-Switched k seen here atomic store id r valid t))

      stored-Placed :
          (s : S) (rev : Text) (m : S × Result PackError Text)
          → revision_name k others c is_utf8 fuel s staging ≡ ok rev
          → seen m.0 (spot store id) ≡ seen s (spot store id)
          → names_it rev m.1 ≡ true
          → Placed (spot store id) id staging s (
              undo k
                (after
                  (in_revision k others c is_utf8 fuel m staging store id)
                  (λ st r. activate_placed k store id st r))
                staging
                record_path)
      unfolding in_revision
      stored-Placed s rev (t, err e) name same named =
          revised-Placed s rev ((t, none), err e) name same refl refl
      stored-Placed s rev (t, ok r) name same named =
          let is_rev = text_eq→eq r rev named in
          let plain = revision_name-plain crypto s staging rev name in
          rw is_rev (
            revised-Placed s rev (place_revision k others c is_utf8 fuel t staging store id rev)
              name
              (place_revision-same k seen here store id valid staging rev apart plain others c
                  is_utf8 fuel quiet t
                ∙ same)
              (place_revision-reaches k seen here store id valid staging rev apart plain others c
                is_utf8 fuel quiet t)
              (place_revision-names_it k seen here store id valid staging rev apart plain others c
                is_utf8 fuel quiet t))

      named-Placed :
          (s : S) (name : Result Failure Text)
          → revision_name k others c is_utf8 fuel s staging ≡ name
          → Placed (spot store id) id staging s (
              undo k
                (after
                  (in_revision k others c is_utf8 fuel
                    (prepare k others c is_utf8 fuel s name staging store id)
                    staging
                    store
                    id)
                  (λ st r. activate_placed k store id st r))
                staging
                record_path)
      unfolding prepare in_revision undo
      named-Placed s (err e) name =
          undone-same k seen here store id valid (s, none) (inventory_failed e) staging record_path
            apart refl recorded
      named-Placed s (ok rev) name =
          stored-Placed s rev _ name (prepare_store-same s rev) (prepare_store-names_it s rev)

  -- Under the laws of the calls, a placement that succeeds puts the link to the revision that the
  -- staged content names at the package's name in one step, and one that fails leaves what was
  -- there. The staged copy, the owner record and the parents of the revisions' directory lie
  -- elsewhere.
  pub place-Placed :
      Local k seen
      → Atomic k seen
      → CryptoLaws c
      → (store id : Text) → is_valid_app_id id ≡ true
      → ((s : S) → seen (others s) (join store id) ≡ seen s (join store id))
      → All (λ dir. text_eq dir (join store id) ≡ false) (k.ancestors (revisions_of store id))
      → (staging : Text) → within staging (join store id) ≡ false
      → (admission : Admission Key) → reaches admission.created_record (join store id) ≡ false
      → (s : S)
      → Placed
          (join store id)
          id
          staging
          s
          (place k others c is_utf8 fuel s staging store id admission)
  unfolding place placed
  place-Placed here atomic crypto store id valid quiet above staging apart admission recorded s =
      let place = join-app_id store id valid in
      subst
        (λ q. Placed q id staging s (
          undo k (placed k others c is_utf8 fuel s staging store id) staging
            admission.created_record))
        (sym place)
        (named-Placed here atomic crypto store id valid (λ t. rw place at quiet t)
          (rw place at above) staging (rw place at apart) admission.created_record
          (rw place at recorded) s _ refl)
