-- ===== src/Pack/Seen.antt =====
-- What the calls of the packaging tool are documented to do to one path: the entries that the path
-- has had, the newest first. The paths below a store are taken by their names: no directory of the
-- store is a link to another.
pub mod Paths
pub mod Small
use weft_os.Base.{◌≡◌, Bool, true, false, Text, text_eq, List, [], ◌∷◌, is_ok}
use weft_os.Base.Paths.Below.{within}
use weft_os.Pack.{Calls}

pub data Entry : Type 0 where
  absent folder_entry file_entry : Entry
  link_to : Text → Entry

unfoldable pub newest : List Entry → Entry
newest [] = absent
newest (e ∷ es) = e

module _ {ℓ} {S File : Type ℓ} (k : Calls S File) (seen : S → Text → List Entry) where
  -- A call changes nothing but its own paths and what is below them.
  pub record Local : Type ℓ where
    pub random_name-same : (s : S) (q : Text) → seen (k.random_name s).0 q ≡ seen s q
    pub sync-same : (s : S) (path q : Text) → seen (k.sync s path).0 q ≡ seen s q
    pub symlink-else :
        (s : S) (target path q : Text)
        → within path q ≡ false
        → seen (k.symlink s target path).0 q ≡ seen s q
    pub rename-else :
        (s : S) (a b q : Text)
        → within a q ≡ false
        → within b q ≡ false
        → seen (k.rename s a b).0 q ≡ seen s q
    pub exchange-else :
        (s : S) (a b q : Text)
        → within a q ≡ false
        → within b q ≡ false
        → seen (k.exchange s a b).0 q ≡ seen s q
    pub rename_no_replace-else :
        (s : S) (a b q : Text)
        → within a q ≡ false
        → within b q ≡ false
        → seen (k.rename_no_replace s a b).0 q ≡ seen s q
    pub remove_file-else :
        (s : S) (path q : Text) → within path q ≡ false → seen (k.remove_file s path).0 q ≡ seen s q
    pub remove_dir_all-else :
        (s : S) (path q : Text)
        → within path q ≡ false
        → seen (k.remove_dir_all s path).0 q ≡ seen s q
    -- it removes an empty directory only, so nothing below it
    pub remove_dir-else :
        (s : S) (path q : Text) → text_eq path q ≡ false → seen (k.remove_dir s path).0 q ≡ seen s q
    pub create_dir-else :
        (s : S) (path q : Text) → text_eq path q ≡ false → seen (k.create_dir s path).0 q ≡ seen s q
    pub open_to_all-same : (s : S) (path q : Text) → seen (k.open_to_all s path).0 q ≡ seen s q
    pub try_lock-same :
        (s : S) (file : File) (q : Text) → seen (k.locks.try_lock s file).0 q ≡ seen s q
    pub close-same : (s : S) (file : File) (q : Text) → seen (k.locks.close s file) q ≡ seen s q

  -- What a call puts at its path, in one step, or that it changed nothing there.
  pub record Atomic : Type ℓ where
    pub symlink-ok :
        (s : S) (target path : Text)
        → is_ok (k.symlink s target path).1 ≡ true
        → seen (k.symlink s target path).0 path ≡ link_to target ∷ seen s path
    pub rename-ok :
        (s : S) (a b : Text)
        → text_eq a b ≡ false
        → is_ok (k.rename s a b).1 ≡ true
        → seen (k.rename s a b).0 b ≡ newest (seen s a) ∷ seen s b
    pub rename-err :
        (s : S) (a b : Text)
        → is_ok (k.rename s a b).1 ≡ false
        → seen (k.rename s a b).0 b ≡ seen s b
    pub exchange-ok :
        (s : S) (a b : Text)
        → text_eq a b ≡ false
        → is_ok (k.exchange s a b).1 ≡ true
        → seen (k.exchange s a b).0 b ≡ newest (seen s a) ∷ seen s b
    pub exchange-err :
        (s : S) (a b : Text)
        → is_ok (k.exchange s a b).1 ≡ false
        → seen (k.exchange s a b).0 b ≡ seen s b
