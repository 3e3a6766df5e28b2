-- ===== src/Pack/Settle/Around.antt =====
-- About `settle_approval` and what is not the record.
use weft_os.Base.{◌≡◌, refl, Bool, true, false, List, Option, Text, codes, ◌++◌, Result, ok, err}
use weft_os.Base.Disk.{ErrorKind}
use weft_os.Base.Steps.{if-same}
use weft_os.Approval.{read_approved, text_set}
use weft_os.Pack.{PackError}
use weft_os.Pack.Settle.{
  Approvals, same_texts, still_declared, record_approved, narrow, narrow_read, settle_approval,
  approval_path,
}

module _ {ℓ κ} {S : Type ℓ} {V : Type κ} (a : Approvals S) (view : S → V)
    (apart : (s : S) (path : Text) (text : Option Text)
      → view (a.write_record s path text).0 ≡ view s) where
  record_approved-same :
      (s : S) (what path : Text) (declared : List Text)
      → view (record_approved a s what path declared).0 ≡ view s
  unfolding record_approved
  record_approved-same s what path declared = apart s path _

  narrow_read-same :
      (s : S) (found : Result ErrorKind (Option Text)) (path app_id : Text) (declared : List Text)
      → view (narrow_read a s found path app_id declared).0 ≡ view s
  unfolding narrow_read narrow
  narrow_read-same s (err e) path app_id declared = refl
  narrow_read-same s (ok text) path app_id declared =
      if-same (λ (m : S × Result PackError (Unit {0})). view m.0)
        (same_texts (still_declared declared (read_approved text)) (text_set (read_approved text)))
        _ _ (view s) (λ e. refl)
        λ e.
          record_approved-same s (codes "update the approval of " ++ app_id) path
            (still_declared declared (read_approved text))

  pub settle_approval-same :
      (s : S) (data_home app_id : Text) (declared : List Text) (approve : Bool)
      → view (settle_approval a s data_home app_id declared approve).0 ≡ view s
  unfolding settle_approval
  settle_approval-same s data_home app_id declared true =
      record_approved-same s (codes "record the approval of " ++ app_id)
        (approval_path data_home app_id) declared
  settle_approval-same s data_home app_id declared false =
      narrow_read-same s _ (approval_path data_home app_id) app_id declared
