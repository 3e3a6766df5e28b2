-- ===== src/Pack/Collect.antt =====
-- `collect`: the removal of what package operations no longer need. A directory is read at once,
-- when it is opened. `others` is what other processes do between the calls of a claim.
pub mod Around
pub mod Keeps
pub mod Revisions
use weft_os.Base.{
  Bool, true, false, not, ◌&&◌, ◌||◌, List, [], ◌∷◌, ◌++◌, Option, none, some, Text, codes, any,
  text_eq, starts_with, strip_prefix, Result, ok, err, if◌then◌else◌,
}
use weft_os.Base.Paths.{join}
use weft_os.Base.Disk.{ErrorKind, link}
use weft_os.Store.{revisions_of, is_revision_name, Active, revision, directory, active, StoreError}
use weft_os.Store.Pin.{try_claim}
use weft_os.Pack.{Calls, previous_link, ignored, previous_revision, remove_claimed, abandoned}

-- `flatten` on the entries of a directory that was opened
unfoldable pub entry_names : List (Result ErrorKind Text) → List Text
entry_names [] = []
entry_names (err e ∷ es) = entry_names es
entry_names (ok name ∷ es) = name ∷ entry_names es

unfoldable pub dir_names : Result ErrorKind (List (Result ErrorKind Text)) → List Text
unfolding entry_names
dir_names (err e) = []
dir_names (ok es) = entry_names es

-- `str::starts_with` of a text
abbrev pub begins : Text → Text → Bool
begins prefix name = elim (strip_prefix prefix name) [ none ↦ false | some rest ↦ true ]

-- a `for` loop whose body changes the state
unfoldable pub each {ℓ} : {S : Type ℓ} → (S → Text → S) → S → List Text → S
each body s [] = s
each body s (name ∷ names) = each body (body s name) names

-- the name of the active revision
unfoldable pub active_name : Result StoreError (Option Active) → Option Text
active_name (ok (some (revision name d))) = some name
active_name (ok (some (directory d))) = none
active_name (ok none) = none
active_name (err e) = none

unfoldable pub listed : Option Text → List Text
listed none = []
listed (some name) = name ∷ []

module _ {ℓ} {S File : Type ℓ} (k : Calls S File) (others : S → S) where
  -- `keep`
  unfoldable pub kept : S → Text → Text → List Text
  unfolding active_name listed
  kept s store_root app_id =
      listed (active_name (active (k.report s) store_root app_id))
      ++ listed (previous_revision k s store_root app_id)

  -- `m.file_type().is_symlink()`
  abbrev pub is_link : S → Text → Bool
  is_link s path = elim ((k.report s).symlink_metadata path) [ ok link ↦ true | _ ↦ false ]

  -- a claimed directory removed, and the claim dropped
  pub remove_granted : S × Result ErrorKind (Option File) → (S → S) → S
  remove_granted (s, ok (some claim)) remove = k.locks.close (remove s) claim
  remove_granted (s, ok none) remove = s
  remove_granted (s, err e) remove = s

  -- the body of the first loop
  pub collect_revision : Text → Text → List Text → S → Text → S
  unfolding remove_granted
  collect_revision store_root app_id keep s name =
      let path = join (revisions_of store_root app_id) name in
      if text_eq name previous_link
      then elim (previous_revision k s store_root app_id) [
        | none ↦ ignored k (k.remove_file s path)
        | some rev ↦ s
      ]
      else if starts_with b'.' name
      then (if is_link s path then ignored k (k.remove_file s path) else s)
      else if not (is_revision_name name) || any (λ n. text_eq n name) keep
      then s
      else remove_granted (try_claim k.locks others s path)
          (λ t. remove_claimed k t store_root path)

  -- the body of the second loop
  pub collect_temporary : Text → Text → S → Text → S
  unfolding remove_granted
  collect_temporary store_root app_id s name =
      let path = join store_root name in
      if begins (codes ".link-" ++ (app_id ++ codes "-")) name
      then (if is_link s path
          then ignored k (k.remove_file s path)
          else remove_granted (try_claim k.locks others s path)
              (λ t. remove_claimed k t store_root path))
      else if (begins (codes ".staging-") name
            || (begins (codes ".unpack-") name || begins (codes ".trash-") name))
          && abandoned k s path
      then remove_granted (try_claim k.locks others s path)
          (λ t. ignored k (k.remove_dir_all t path))
      else s

  unfoldable pub collect : S → Text → Text → S
  unfolding collect_revision collect_temporary
  collect s store_root app_id =
      let revisions = revisions_of store_root app_id in
      let s1 =
        each (collect_revision store_root app_id (kept s store_root app_id)) s
          (dir_names ((k.report s).read_dir revisions)) in
      let s2 = ignored k (k.remove_dir s1 revisions) in
      each (collect_temporary store_root app_id) s2 (dir_names ((k.report s2).read_dir store_root))
