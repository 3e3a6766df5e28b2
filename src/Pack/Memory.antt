-- ===== src/Pack/Memory.antt =====
-- A store in memory, a concrete case of the calls: every path with the entries that it has had.
-- What lies below a moved directory is left out, and no file has content.
use weft_os.Base.{
  ◌≡◌, refl, true, false, List, [], ◌∷◌, none, Text, codes, text_eq, text_eq_refl, map, Result, ok,
  err, is_ok, if◌then◌else◌,
}
use weft_os.Base.Disk.{
  ErrorKind, not_found, already_exists, other_error, FileType, regular, folder, link,
}
use weft_os.Base.Paths.Below.{within, within-text_eq}
use weft_os.Store.Pin.{would_block, Locks}
use weft_os.Pack.{Calls}
use weft_os.Pack.Seen.{Entry, absent, folder_entry, file_entry, link_to, newest, Local, Atomic}

abbrev pub Shelf : Type 0
Shelf = Text → List Entry

abbrev pub shown : Shelf → Text → List Entry
shown s p = s p

unfoldable pub put : Shelf → Text → Entry → Shelf
put s p e q = if text_eq p q then e ∷ s q else s q

-- `b` gets `there`, and `a`, if it is another path, gets `back`
unfoldable pub swap : Shelf → Text → Entry → Text → Entry → Shelf
swap s a back b there q =
    if text_eq b q then there ∷ s q else if text_eq a q then back ∷ s q else s q

unfoldable pub metadata : Entry → Result ErrorKind FileType
metadata absent = err not_found
metadata folder_entry = ok folder
metadata file_entry = ok regular
metadata (link_to t) = ok link

unfoldable pub target : Entry → Result ErrorKind Text
target absent = err not_found
target folder_entry = err other_error
target file_entry = err other_error
target (link_to t) = ok t

unfoldable pub link_at : Shelf → Text → Text → Entry → Shelf × Result ErrorKind (Unit {0})
link_at s t p absent = (put s p (link_to t), ok tt)
link_at s t p e = (s, err already_exists)

unfoldable pub move_to : Shelf → Text → Text → Entry → Shelf × Result ErrorKind (Unit {0})
move_to s a b absent = (s, err not_found)
move_to s a b folder_entry = (swap s a absent b folder_entry, ok tt)
move_to s a b file_entry = (swap s a absent b file_entry, ok tt)
move_to s a b (link_to t) = (swap s a absent b (link_to t), ok tt)

unfoldable pub remove_at : Shelf → Text → Entry → Shelf × Result ErrorKind (Unit {0})
remove_at s p absent = (s, err not_found)
remove_at s p e = (put s p absent, ok tt)

unfoldable pub make_at : Shelf → Text → Entry → Shelf × Result ErrorKind (Unit {0})
make_at s p absent = (put s p folder_entry, ok tt)
make_at s p e = (s, err already_exists)

-- `busy` is a directory that a session runs from.
abbrev pub shelf_locks : Text → Locks Shelf Text
shelf_locks busy = record {
  open_file = λ s p. ok p;
  try_lock_shared = λ s f. (s, ok tt);
  try_lock = λ s f. (s, if text_eq f busy then err would_block else ok tt);
  identity = λ f. ok (0, 0);
  named_identity = λ s p. ok (0, 0);
  close = λ s f. s;
  held = λ s i. true;
}

-- `names` are those that a directory lists.
unfoldable pub shelf_calls : (Text → List Text) → Text → Calls Shelf Text
shelf_calls names busy = record {
  report = λ s. record {
    symlink_metadata = λ p. metadata (newest (s p));
    read_link = λ p. target (newest (s p));
    read = λ p. err not_found;
    read_dir = λ p. ok (map (λ n. ok n) (names p));
  };
  random_name = λ s. (s, codes "00ff");
  symlink = λ s t p. link_at s t p (newest (s p));
  rename = λ s a b. move_to s a b (newest (s a));
  exchange = λ s a b. (swap s a (newest (s b)) b (newest (s a)), ok tt);
  rename_no_replace = λ s a b. move_to s a b (newest (s a));
  remove_file = λ s p. remove_at s p (newest (s p));
  remove_dir = λ s p. (s, err other_error);
  remove_dir_all = λ s p. remove_at s p (newest (s p));
  create_dir = λ s p. make_at s p (newest (s p));
  open_to_all = λ s p. (s, ok tt);
  is_dir = λ s p. true;
  ancestors = λ p. p ∷ [];
  sync = λ s p. (s, ok tt);
  age = λ s p. none;
  locks = shelf_locks busy;
}

put-else : (s : Shelf) (p q : Text) (e : Entry) → text_eq p q ≡ false → put s p e q ≡ s q
unfolding put
put-else s p q e h = rw h refl

swap-else :
    (s : Shelf) (a b q : Text) (back there : Entry)
    → within a q ≡ false
    → within b q ≡ false
    → swap s a back b there q ≡ s q
unfolding swap
swap-else s a b q back there h k = rw (within-text_eq b q k, within-text_eq a q h) refl

link_at-else :
    (s : Shelf) (t p q : Text) (e : Entry) → within p q ≡ false → (link_at s t p e).0 q ≡ s q
unfolding link_at
link_at-else s t p q absent h = put-else s p q (link_to t) (within-text_eq p q h)
link_at-else s t p q e h = refl

move_to-else :
    (s : Shelf) (a b q : Text) (e : Entry)
    → within a q ≡ false
    → within b q ≡ false
    → (move_to s a b e).0 q ≡ s q
unfolding move_to
move_to-else s a b q absent h k = refl
move_to-else s a b q folder_entry h k = swap-else s a b q absent folder_entry h k
move_to-else s a b q file_entry h k = swap-else s a b q absent file_entry h k
move_to-else s a b q (link_to t) h k = swap-else s a b q absent (link_to t) h k

remove_at-else :
    (s : Shelf) (p q : Text) (e : Entry) → within p q ≡ false → (remove_at s p e).0 q ≡ s q
unfolding remove_at
remove_at-else s p q absent h = refl
remove_at-else s p q e h = put-else s p q absent (within-text_eq p q h)

make_at-else :
    (s : Shelf) (p q : Text) (e : Entry) → text_eq p q ≡ false → (make_at s p e).0 q ≡ s q
unfolding make_at
make_at-else s p q absent h = put-else s p q folder_entry h
make_at-else s p q e h = refl

link_at-ok :
    (s : Shelf) (t p : Text) (e : Entry)
    → is_ok (link_at s t p e).1 ≡ true
    → (link_at s t p e).0 p ≡ link_to t ∷ s p
unfolding link_at put
link_at-ok s t p absent h = rw (text_eq_refl p) refl
link_at-ok s t p e h = cc

move_to-ok :
    (s : Shelf) (a b : Text) (e : Entry)
    → is_ok (move_to s a b e).1 ≡ true
    → (move_to s a b e).0 b ≡ e ∷ s b
unfolding move_to swap
move_to-ok s a b absent h = cc
move_to-ok s a b folder_entry h = rw (text_eq_refl b) refl
move_to-ok s a b file_entry h = rw (text_eq_refl b) refl
move_to-ok s a b (link_to t) h = rw (text_eq_refl b) refl

move_to-err :
    (s : Shelf) (a b : Text) (e : Entry)
    → is_ok (move_to s a b e).1 ≡ false
    → (move_to s a b e).0 b ≡ s b
unfolding move_to
move_to-err s a b absent h = refl
move_to-err s a b folder_entry h = cc
move_to-err s a b file_entry h = cc
move_to-err s a b (link_to t) h = cc

swap-ok : (s : Shelf) (a b : Text) (back there : Entry) → swap s a back b there b ≡ there ∷ s b
unfolding swap
swap-ok s a b back there = rw (text_eq_refl b) refl

module _ (names : Text → List Text) (busy : Text) where
  pub shelf-Local : Local (shelf_calls names busy) shown
  unfolding shelf_calls
  shelf-Local = record {
    random_name-same = λ s q. refl;
    sync-same = λ s path q. refl;
    symlink-else = λ s t p q h. link_at-else s t p q (newest (s p)) h;
    rename-else = λ s a b q h k. move_to-else s a b q (newest (s a)) h k;
    exchange-else = λ s a b q h k. swap-else s a b q (newest (s b)) (newest (s a)) h k;
    rename_no_replace-else = λ s a b q h k. move_to-else s a b q (newest (s a)) h k;
    remove_file-else = λ s p q h. remove_at-else s p q (newest (s p)) h;
    remove_dir_all-else = λ s p q h. remove_at-else s p q (newest (s p)) h;
    remove_dir-else = λ s p q h. refl;
    create_dir-else = λ s p q h. make_at-else s p q (newest (s p)) h;
    open_to_all-same = λ s p q. refl;
    try_lock-same = λ s f q. refl;
    close-same = λ s f q. refl;
  }

  pub shelf-Atomic : Atomic (shelf_calls names busy) shown
  unfolding shelf_calls
  shelf-Atomic = record {
    symlink-ok = λ s t p h. link_at-ok s t p (newest (s p)) h;
    rename-ok = λ s a b other h. move_to-ok s a b (newest (s a)) h;
    rename-err = λ s a b h. move_to-err s a b (newest (s a)) h;
    exchange-ok = λ s a b other h. swap-ok s a b (newest (s b)) (newest (s a));
    exchange-err = λ s a b h. absurd (cc);
  }
