-- ===== src/Pack/Collect/Revisions.antt =====
-- About `collect`, the link of the package and the revisions in use.
use weft_os.Base.{
  ◌≡◌, refl, sym, ◌∙◌, subst, true, false, List, [], ◌∷◌, ◌++◌, Text, text_eq, arith,
}
use weft_os.Base.Paths.{join, separator}
use weft_os.Base.Paths.Below.{within, within-text_eq, spot}
use weft_os.Package.{is_valid_app_id}
use weft_os.Pack.{Calls}
use weft_os.Pack.Collect.{kept, collect}
use weft_os.Pack.Collect.Around.{Spared}
use weft_os.Pack.Collect.Keeps.{collect-same}
use weft_os.Pack.Seen.{Entry, Local}
use weft_os.Pack.Seen.Paths.{Clear-app_id, hidden, join-app_id}

text_eq-append : (c p q : Text) → text_eq (c ++ p) (c ++ q) ≡ text_eq p q
unfolding text_eq
text_eq-append [] p q = refl
text_eq-append (b ∷ c) p q = ground (arith, text_eq-append c p q)

text_eq-spot : (store p q : Text) → text_eq (spot store p) (spot store q) ≡ text_eq p q
text_eq-spot store p q = text_eq-append store _ _ ∙ text_eq-append (separator store) p q

module _ {ℓ} {S File : Type ℓ} (k : Calls S File) (seen : S → Text → List Entry)
    (here : Local k seen) (others : S → S) (store id : Text) (valid : is_valid_app_id id ≡ true)
    (s : S) where
  below_name : (r : Text) → within (b'.' ∷ r) id ≡ false
  below_name r = Clear-app_id id [] valid r

  Spared-app_id : Spared k seen here others store id id (kept k others s store id)
  Spared-app_id = record {
    previous = below_name _;
    dotted = λ n. below_name _;
    unkept = λ t name h unkept granted. below_name _;
    links = λ r. below_name _;
    staging = λ r. below_name _;
    unpack = λ r. below_name _;
    trash = λ r. below_name _;
    own_dir =
        text_eq-spot store (hidden ++ id) id ∙ within-text_eq (hidden ++ id) id (below_name _);
  }

  -- A collection leaves the entry at the package's name as it was.
  pub collect-app_id :
      ((t : S) → seen (others t) (join store id) ≡ seen t (join store id))
      → seen (collect k others s store id) (join store id) ≡ seen s (join store id)
  collect-app_id quiet =
      let place = join-app_id store id valid in
      subst (λ q. seen (collect k others s store id) q ≡ seen s q) (sym place)
        (collect-same k seen here others store id id valid (λ t. rw place at quiet t) s
          Spared-app_id)
