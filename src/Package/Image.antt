-- ===== src/Package/Image.antt =====
-- The files of a verified package image. `with_extension` is for a path that ends in a file name.
use weft_os.Base.{
  ◌≡◌, refl, ap, sym, ◌∙◌, ℕ, ◌==◌, Bool, true, false, not, ◌&&◌, ◌||◌, [], ◌∷◌, ◌++◌, Option, none,
  some, Text, codes, all, starts_with, is_ok, append_assoc, if◌then◌else◌,
}
use weft_os.Base.Paths.{join, separator}
use weft_os.Base.Disk.{Disk}

pub record ImageFiles : Type 0 where
  pub image : Text
  pub hash_tree : Text
  pub root_hash : Text

-- The path up to its extension; `start` says that a file name begins here, where a dot begins none.
stem : Bool → Text → Option Text
stem start [] = none
stem start (b ∷ s) = elim (stem (b == b'/') s) [
  | some p ↦ some (b ∷ p)
  | none ↦ if (b == b'.' && not start) && all (λ c. not (c == b'/')) s then some [] else none
]

with_extension : Text → Text → Text
unfolding stem
with_extension path extension = elim (stem true path) [
  | some p ↦ p ++ (b'.' ∷ extension)
  | none ↦ path ++ (b'.' ∷ extension)
]

unfoldable pub for_image : Text → ImageFiles
unfolding with_extension
for_image image = record {
  image = image;
  hash_tree = with_extension image (codes "hash");
  root_hash = with_extension image (codes "roothash");
}

unfoldable pub in_store : Text → Text → ImageFiles
unfolding for_image
in_store store_root app_id = for_image (join store_root (app_id ++ codes ".app.img"))

unfoldable pub any_present : Disk → ImageFiles → Bool
any_present fs files =
    is_ok (fs.symlink_metadata files.image)
    || (is_ok (fs.symlink_metadata files.hash_tree) || is_ok (fs.symlink_metadata files.root_hash))

stem-img :
    (start : Bool) (x : Text) (b : ℕ)
    → (b == b'/') ≡ false
    → stem start (x ++ (b ∷ codes ".img")) ≡ some (x ++ (b ∷ []))
unfolding stem all
stem-img start [] b h = rw (h, stem) refl
stem-img start (a ∷ x) b h = rw (stem-img (a == b'/') x b h, stem) refl

no_slash-append :
    (s t : Text) → starts_with b'/' s ≡ false → starts_with b'/' (s ++ (b'.' ∷ t)) ≡ false
unfolding starts_with
no_slash-append [] t h = refl
no_slash-append (b ∷ s) t h = h

with_extension-img :
    (x extension : Text)
    → with_extension (x ++ codes "p.img") extension ≡ x ++ (b'p' ∷ (b'.' ∷ extension))
unfolding with_extension
with_extension-img x extension =
    rw (stem-img true x b'p' refl, with_extension) (append_assoc x (codes "p") (b'.' ∷ extension))

with_extension-join :
    (store_root app_id extension : Text)
    → starts_with b'/' app_id ≡ false
    → with_extension (join store_root (app_id ++ codes ".app.img")) extension
      ≡ join store_root (app_id ++ (codes ".app." ++ extension))
with_extension-join store_root app_id extension h =
    let x = store_root ++ (separator store_root ++ (app_id ++ codes ".ap")) in
    let regroup = λ (t : Text).
      append_assoc store_root (separator store_root ++ (app_id ++ codes ".ap")) t
      ∙ ap (λ u. store_root ++ u)
          (append_assoc (separator store_root) (app_id ++ codes ".ap") t
            ∙ ap (λ u. separator store_root ++ u) (append_assoc app_id (codes ".ap") t)) in
    rw
      (
        no_slash-append app_id (codes "app.img") h,
        no_slash-append app_id (codes "app." ++ extension) h,
      )
      (ap (λ p. with_extension p extension) (sym (regroup (codes "p.img")))
        ∙ (with_extension-img x extension ∙ regroup (b'p' ∷ (b'.' ∷ extension))))

-- The companions of the image of an app in a store have its name, with another extension.
in_store-companions :
    (store_root app_id : Text)
    → starts_with b'/' app_id ≡ false
    → ((in_store store_root app_id).hash_tree ≡ join store_root (app_id ++ codes ".app.hash"))
      × ((in_store store_root app_id).root_hash ≡ join store_root (app_id ++ codes ".app.roothash"))
unfolding in_store
in_store-companions store_root app_id h = (
  with_extension-join store_root app_id (codes "hash") h,
  with_extension-join store_root app_id (codes "roothash") h,
)
