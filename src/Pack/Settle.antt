-- ===== src/Pack/Settle.antt =====
-- `settle_approval`: what an installed package's capabilities are approved for. What the pending
-- ones print is left out.
pub mod Settled
pub mod Around
use weft_os.Base.{
  Bool, true, false, not, ◌&&◌, List, [], ◌∷◌, ◌++◌, Option, none, some, Text, codes, text_eq,
  filter, Result, ok, err, if◌then◌else◌,
}
use weft_os.Base.Paths.{join}
use weft_os.Base.Disk.{ErrorKind}
use weft_os.Base.Steps.{after}
use weft_os.Approval.{holds, read_approved, text_set, write_approved}
use weft_os.Pack.{PackError, failed, context}

unfoldable pub approval_path : Text → Text → Text
approval_path data_home app_id = join (join data_home (codes "weft/approvals")) app_id

-- The record at a path, `none` where there is none. `write_record` replaces it in one rename, or
-- removes it.
pub record Approvals {ℓ} (S : Type ℓ) : Type ℓ where
  pub read_record : S → Text → Result ErrorKind (Option Text)
  pub write_record : S → Text → Option Text → S × Result ErrorKind (Unit {0})

-- `==` on sets, as their elements in order
unfoldable pub same_texts : List Text → List Text → Bool
same_texts [] [] = true
same_texts (a ∷ as') (b ∷ bs) = text_eq a b && same_texts as' bs
same_texts _ _ = false

-- `kept`
unfoldable pub still_declared : List Text → List Text → List Text
still_declared declared approved = text_set (filter (λ c. holds c approved) declared)

module _ {ℓ} {S : Type ℓ} (a : Approvals S) where
  record_approved : S → Text → Text → List Text → S × Result PackError (Unit {0})
  unfolding context
  record_approved s what path declared =
      let (s', answer) = a.write_record s path (write_approved declared) in
      (s', context what answer)

  narrow : S → Text → Text → List Text → List Text → S × Result PackError (Unit {0})
  unfolding record_approved still_declared same_texts
  narrow s path app_id declared approved =
      let kept = still_declared declared approved in
      if same_texts kept (text_set approved)
      then (s, ok tt)
      else record_approved s (codes "update the approval of " ++ app_id) path kept

  narrow_read :
      S → Result ErrorKind (Option Text) → Text → Text → List Text → S × Result PackError (Unit {0})
  unfolding narrow
  narrow_read s (err e) path app_id declared = (s, err (failed (codes "read " ++ path) e))
  narrow_read s (ok text) path app_id declared = narrow s path app_id declared (read_approved text)

  unfoldable pub settle_approval :
      S → Text → Text → List Text → Bool → S × Result PackError (Unit {0})
  unfolding narrow_read record_approved approval_path
  settle_approval s data_home app_id declared approve =
      let path = approval_path data_home app_id in
      if approve
      then record_approved s (codes "record the approval of " ++ app_id) path declared
      else narrow_read s (a.read_record s path) path app_id declared
