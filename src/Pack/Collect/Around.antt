-- ===== src/Pack/Collect/Around.antt =====
-- Which paths a step of `collect` may change.
use weft_os.Base.{
  ◌≡◌, refl, ◌∙◌, Bool, true, false, List, [], ◌∷◌, ◌++◌, Option, none, some, Text, codes, any,
  text_eq, Result, ok, err, if◌then◌else◌,
}
use weft_os.Base.Paths.{join}
use weft_os.Base.Paths.Below.{within, spot}
use weft_os.Base.Disk.{ErrorKind}
use weft_os.Store.{revisions_of, is_revision_name}
use weft_os.Store.Pin.{try_claim}
use weft_os.Store.Pin.Quiet.{try_claim-same}
use weft_os.Pack.{Calls, previous_link, ignored}
use weft_os.Pack.Collect.{remove_granted, each}
use weft_os.Pack.Seen.{Entry, Local}
use weft_os.Pack.Seen.Paths.{Clear, hidden}

-- The outcome of a claim that was granted.
abbrev pub is_granted {ℓ κ} :
    {S : Type ℓ} {File : Type κ} → S × Result ErrorKind (Option File) → Bool
is_granted m = elim m.1 [ ok (some claim) ↦ true | _ ↦ false ]

module _ {ℓ} {S File : Type ℓ} (k : Calls S File) (seen : S → Text → List Entry)
    (here : Local k seen) (others : S → S) where
  module _ (q : Text) (quiet : (s : S) → seen (others s) q ≡ seen s q) where
    pub granted-same : (s : S) (path : Text) → seen (try_claim k.locks others s path).0 q ≡ seen s q
    granted-same s path =
        try_claim-same k.locks others (λ t. seen t q) quiet (λ t file. here.try_lock-same t file q)
          (λ t file. here.close-same t file q) s path

    pub remove_granted-same :
        (m : S × Result ErrorKind (Option File)) (remove : S → S)
        → (is_granted m ≡ true → seen (remove m.0) q ≡ seen m.0 q)
        → seen (remove_granted k others m remove) q ≡ seen m.0 q
    unfolding remove_granted
    remove_granted-same (s, ok (some claim)) remove h = here.close-same (remove s) claim q ∙ h refl
    remove_granted-same (s, ok none) remove h = refl
    remove_granted-same (s, err e) remove h = refl

    pub remove_file-same :
        (b : Bool) (s : S) (path : Text)
        → within path q ≡ false
        → seen (if b then ignored k (k.remove_file s path) else s) q ≡ seen s q
    remove_file-same true s path apart = here.remove_file-else s path q apart
    remove_file-same false s path apart = refl

    pub each-same :
        (body : S → Text → S) (s : S) (names : List Text)
        → ((t : S) (name : Text) → seen (body t name) q ≡ seen t q)
        → seen (each body s names) q ≡ seen s q
    unfolding each
    each-same body s [] h = refl
    each-same body s (name ∷ names) h = each-same body (body s name) names h ∙ h s name

  -- The name `y` in the store is none that `collect` of `id` removes, when it keeps these revisions.
  pub record Spared (store id y : Text) (keep : List Text) : Type ℓ where
    pub previous : within (hidden ++ (id ++ (b'/' ∷ previous_link))) y ≡ false
    pub dotted : (n : Text) → within (hidden ++ (id ++ (b'/' ∷ (b'.' ∷ n)))) y ≡ false
    pub unkept :
        (s : S) (name : Text)
        → is_revision_name name ≡ true
        → any (λ n. text_eq n name) keep ≡ false
        → is_granted (try_claim k.locks others s (join (revisions_of store id) name)) ≡ true
        → within (hidden ++ (id ++ (b'/' ∷ name))) y ≡ false
    pub links : Clear (codes ".link-") y
    pub staging : Clear (codes ".staging-") y
    pub unpack : Clear (codes ".unpack-") y
    pub trash : Clear (codes ".trash-") y
    pub own_dir : text_eq (spot store (hidden ++ id)) (spot store y) ≡ false
