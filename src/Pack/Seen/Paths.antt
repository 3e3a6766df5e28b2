-- ===== src/Pack/Seen/Paths.antt =====
-- Where the paths of a package operation lie in the store.
use weft_os.Base.{
  ◌≡◌, refl, ℕ, true, false, all, Text, codes, [], ◌∷◌, ◌++◌, starts_with, ends_with, arith, ◌<◌,
}
use weft_os.Base.Paths.{join}
use weft_os.Base.Paths.Below.{within, spot, join-spot}
use weft_os.Package.{is_valid_app_id}
use weft_os.Package.Identity.{is_id_byte, starts_lowercase, is_valid_app_id-bytes}
use weft_os.Store.{revisions_of}

-- No path that starts this way is `y` or above it.
abbrev pub Clear : Text → Text → Type 0
Clear start y = (rest : Text) → within (start ++ rest) y ≡ false

ends_with-bytes : (id : Text) → all is_id_byte id ≡ true → ends_with b'/' id ≡ false
unfolding ends_with all
ends_with-bytes [] h = refl
ends_with-bytes (b ∷ []) h = ground arith
ends_with-bytes (b ∷ c ∷ id) h = ends_with-bytes (c ∷ id) (ground arith)

ends_with-app_id : (id : Text) → is_valid_app_id id ≡ true → ends_with b'/' id ≡ false
ends_with-app_id id h = ends_with-bytes id (is_valid_app_id-bytes id h).0

pub starts_with-app_id :
    (c : ℕ) (id : Text) → is_valid_app_id id ≡ true → c < 97 → starts_with c id ≡ false
unfolding starts_with
starts_with-app_id c id h le = go id (is_valid_app_id-bytes id h).1
  where
    go : (id : Text) → starts_lowercase id ≡ true → starts_with c id ≡ false
    go [] e = refl
    go (b ∷ id) e = ground arith

-- What is hidden in the store is not above the package's own name.
pub Clear-app_id : (id start : Text) → is_valid_app_id id ≡ true → Clear (b'.' ∷ start) id
unfolding within
Clear-app_id id start h rest = go id (is_valid_app_id-bytes id h).1
  where
    go : (id : Text) → starts_lowercase id ≡ true → within (b'.' ∷ (start ++ rest)) id ≡ false
    go [] e = refl
    go (b ∷ id) e = ground arith

abbrev pub hidden : Text
hidden = codes ".revisions/"

ends_with-hidden : (id : Text) → is_valid_app_id id ≡ true → ends_with b'/' (hidden ++ id) ≡ false
unfolding ends_with
ends_with-hidden id h = go id (ends_with-app_id id h) (is_valid_app_id-bytes id h).1
  where
    go :
        (id : Text)
        → ends_with b'/' id ≡ false
        → starts_lowercase id ≡ true
        → ends_with b'/' (hidden ++ id) ≡ false
    go [] e l = cc
    go (b ∷ id) e l = e

module _ (store id : Text) (valid : is_valid_app_id id ≡ true) where
  pub join-app_id : join store id ≡ spot store id
  join-app_id = rw (starts_with-app_id b'/' id valid (omega arith)) refl

  pub revisions_of-spot : revisions_of store id ≡ spot store (hidden ++ id)
  unfolding revisions_of ends_with starts_with
  revisions_of-spot =
      join-spot store b'.' (codes "revisions") id refl
        (starts_with-app_id b'/' id valid (omega arith))

  pub join-revisions_of :
      (name : Text)
      → starts_with b'/' name ≡ false
      → join (revisions_of store id) name ≡ spot store (hidden ++ (id ++ (b'/' ∷ name)))
  join-revisions_of name h =
      rw revisions_of-spot
        (join-spot store b'.' (codes "revisions/" ++ id) name (ends_with-hidden id valid) h)
