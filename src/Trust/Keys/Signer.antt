-- ===== src/Trust/Keys/Signer.antt =====
-- Who signed a package.
use weft_os.Base.{
  ◌≡◌, ◌⊎◌, ℕ, Bool, true, false, List, [], ◌∷◌, Option, none, some, Text, Result, ok, err,
}
use weft_os.Base.Disk.{Disk}
use weft_os.Trust.{Crypto, TrustError, signed, read_signature}
use weft_os.Trust.Inventory.{Failure, failed, content_digest}

module _ {Key Signature : Type 0} (c : Crypto Key Signature) (is_utf8 : Text → Bool)
    (fs : Disk) where
  abbrev pub Refuses : List Key → Text → Signature → Type 0
  Refuses [] digest signature = Unit
  Refuses (k ∷ keys) digest signature =
      (signed c k digest signature ≡ false) × Refuses keys digest signature

  -- `key` is the first of `keys` that made the signature.
  abbrev pub FirstSigner : List Key → Text → Signature → Key → Type 0
  FirstSigner [] digest signature key = ⊥
  FirstSigner (k ∷ keys) digest signature key =
      ((k ≡ key) × (signed c k digest signature ≡ true))
      ⊎ ((signed c k digest signature ≡ false) × FirstSigner keys digest signature key)

  abbrev pub Signs : List Key → Text → Signature → Option Key → Type 0
  Signs keys digest signature none = Refuses keys digest signature
  Signs keys digest signature (some key) = FirstSigner keys digest signature key

  -- What the answer says of the package.
  abbrev pub Decided : ℕ → List Key → Text → Result Failure (Option Key) → Type 0
  Decided fuel keys root (ok answer) =
      ((read_signature c fs root ≡ ok none) × (answer ≡ none))
      ⊎ ((signature : Signature) × (digest : Text) × (read_signature c fs root
            ≡ ok (some signature))
          × (content_digest c is_utf8 fs fuel root ≡ ok digest)
          × Signs keys digest signature answer)
  Decided fuel keys root (err e) =
      ((t : TrustError) × (read_signature c fs root ≡ err t) × (e ≡ failed t))
      ⊎ (content_digest c is_utf8 fs fuel root ≡ err e)
