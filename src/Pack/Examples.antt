-- ===== src/Pack/Examples.antt =====
-- A store with three revisions of a package, of which a session runs from one.
use weft_os.Base.{
  ◌≡◌, refl, ℕ, Bool, true, false, inr, ◌∷◌, [], List, Option, none, some, Text, codes, text_eq,
  ◌++◌, Result, ok, err, if◌then◌else◌, any, split, all, length,
}
use weft_os.Base.Disk.{not_found}
use weft_os.Package.{FileSystem, is_valid_app_id}
use weft_os.Store.{revisions_of, link_target, active}
use weft_os.Trust.Memory.{ToyKey, toy, toy-CryptoLaws}
use weft_os.Trust.Memory.Records.{records}
use weft_os.Trust.Owners.{Owner, OwnerFiles}
use weft_os.Manifest.{Manifest}
use weft_os.Portal.Memory.{Disk}
use weft_os.Pack.{Calls, PackError, IoKind}
use weft_os.Pack.Admit.{development, admit}
use weft_os.Pack.Admit.Owned.{Owned}
use weft_os.Pack.Seen.{Entry, absent, folder_entry, link_to}
use weft_os.Pack.Memory.{Shelf, shown, shelf_calls, shelf-Local, shelf-Atomic}
use weft_os.Pack.Switch.{activate}
use weft_os.Pack.Switch.Once.{Switched, activate-Switched}
use weft_os.Pack.Place.{Admission, place}
use weft_os.Pack.Place.Once.{Placed, place-Placed}
use weft_os.Pack.Rollback.{rollback_locked}
use weft_os.Pack.Rollback.Once.{RolledBack, rollback_locked-RolledBack}
use weft_os.Pack.Settle.{Approvals}

abbrev rev_a : Text
rev_a = codes "aaaaaaaaaaaaaaaaaaaaaaaaaaaaaaaaaaaaaaaaaaaaaaaaaaaaaaaaaaaaaaaa"

abbrev rev_b : Text
rev_b = codes "bbbbbbbbbbbbbbbbbbbbbbbbbbbbbbbbbbbbbbbbbbbbbbbbbbbbbbbbbbbbbbbb"

abbrev rev_c : Text
rev_c = codes "cccccccccccccccccccccccccccccccccccccccccccccccccccccccccccccccc"

abbrev app : Text
app = codes "com.example.notes"

abbrev revisions : Text
revisions = codes "/s/.revisions/com.example.notes"

abbrev start : Shelf
start p =
    if text_eq p (codes "/s/com.example.notes")
    then link_to (codes ".revisions/com.example.notes/" ++ rev_a) ∷ []
    else if text_eq p (revisions ++ codes "/previous")
    then link_to rev_b ∷ []
    else if text_eq p (revisions ++ (b'/' ∷ rev_a))
    then folder_entry ∷ []
    else if text_eq p (revisions ++ (b'/' ∷ rev_b))
    then folder_entry ∷ []
    else if text_eq p (revisions ++ (b'/' ∷ rev_c))
    then folder_entry ∷ []
    else if text_eq p (codes "/s/.staging-1")
    then folder_entry ∷ []
    else []

abbrev listing : Text → List Text
listing p = if text_eq p revisions then codes "previous" ∷ rev_a ∷ rev_b ∷ rev_c ∷ [] else []

abbrev calls : Calls Shelf Text
calls = shelf_calls listing (revisions ++ (b'/' ∷ rev_c))

abbrev alone : Shelf → Shelf
alone s = s

activate-Switched_example :
    Switched calls shown
      (codes "/s/com.example.notes")
      (link_target app rev_c)
      start
      (activate calls start (codes "/s") app rev_c)
unfolding weft_os.Base.starts_with weft_os.Base.ends_with weft_os.Package.is_valid_app_id
    weft_os.Base.split weft_os.Base.all
activate-Switched_example =
    activate-Switched calls shown (shelf-Local listing (revisions ++ (b'/' ∷ rev_c)))
      (shelf-Atomic listing (revisions ++ (b'/' ∷ rev_c))) (codes "/s") app rev_c refl start

-- The activation, run: both links change, each in one step.
activated :
    (activate calls start (codes "/s") app rev_c).0 (codes "/s/com.example.notes")
    ≡ link_to (codes ".revisions/com.example.notes/" ++ rev_c)
      ∷ start (codes "/s/com.example.notes")
unfolding activate weft_os.Package.is_valid_app_id weft_os.Base.split weft_os.Base.all any
    weft_os.Store.active weft_os.Pack.previous_revision shelf_calls text_eq revisions_of link_target
    weft_os.Base.starts_with weft_os.Base.ends_with weft_os.Pack.Memory.metadata
    weft_os.Pack.Memory.target weft_os.Pack.Memory.link_at weft_os.Pack.Memory.move_to
    weft_os.Pack.Memory.put weft_os.Pack.Memory.swap weft_os.Pack.Memory.remove_at
    weft_os.Pack.Seen.newest weft_os.Store.is_revision_name weft_os.Base.Paths.file_name
    weft_os.Base.Paths.components weft_os.Base.Paths.path_eq weft_os.Pack.temporary_link
    weft_os.Pack.replace_link weft_os.Pack.sync_dir weft_os.Pack.context
    weft_os.Pack.Switch.in_store
activated = refl

previous_kept :
    (activate calls start (codes "/s") app rev_c).0 (revisions ++ codes "/previous")
    ≡ link_to rev_a ∷ start (revisions ++ codes "/previous")
unfolding activate weft_os.Package.is_valid_app_id weft_os.Base.split weft_os.Base.all any
    weft_os.Store.active weft_os.Pack.previous_revision shelf_calls text_eq revisions_of link_target
    weft_os.Base.starts_with weft_os.Base.ends_with weft_os.Pack.Memory.metadata
    weft_os.Pack.Memory.target weft_os.Pack.Memory.link_at weft_os.Pack.Memory.move_to
    weft_os.Pack.Memory.put weft_os.Pack.Memory.swap weft_os.Pack.Memory.remove_at
    weft_os.Pack.Seen.newest weft_os.Store.is_revision_name weft_os.Base.Paths.file_name
    weft_os.Base.Paths.components weft_os.Base.Paths.path_eq weft_os.Pack.temporary_link
    weft_os.Pack.replace_link weft_os.Pack.sync_dir weft_os.Pack.context
    weft_os.Pack.Switch.in_store
previous_kept = refl

place-Placed_example :
    Placed calls shown alone toy
      (λ t. true)
      2
      (codes "/s/com.example.notes")
      app
      (codes "/s/.staging-1")
      start
      (place calls alone toy
        (λ t. true)
        2
        start
        (codes "/s/.staging-1")
        (codes "/s")
        app
        (record { owner = Owner.development; created_record = none }))
unfolding weft_os.Package.is_valid_app_id weft_os.Base.split weft_os.Base.all shelf_calls text_eq
    revisions_of weft_os.Base.starts_with weft_os.Base.ends_with weft_os.Base.Paths.Below.within
place-Placed_example =
    place-Placed calls shown alone toy (λ t. true) 2
      (shelf-Local listing (revisions ++ (b'/' ∷ rev_c)))
      (shelf-Atomic listing (revisions ++ (b'/' ∷ rev_c))) toy-CryptoLaws (codes "/s") app refl
      (λ t. refl) (refl, tt) (codes "/s/.staging-1") refl
      (record { owner = Owner.development; created_record = none }) refl start

abbrev no_owner_files : OwnerFiles Shelf Text
no_owner_files = record {
  parent = λ p. none;
  read_to_string = λ s p. ok (codes "development\n");
  create_dir_all = λ s p. (s, ok tt);
  remove_file = λ s p. s;
  create_new = λ s p. (s, ok p);
  write_all = λ s f t. (s, ok tt);
  sync_all = λ s f. (s, ok tt);
  hard_link = λ s a b. (s, ok tt);
  sync_dir = λ s p. (s, ok tt);
  open_lock = λ s p. (s, ok p);
  lock = λ s f. (s, ok tt);
}

abbrev no_approvals : Approvals Shelf
no_approvals = record { read_record = λ s p. ok none; write_record = λ s p t. (s, ok tt) }

abbrev no_manifest : Text → Result Text Manifest
no_manifest t = err (codes "empty")

rollback_locked-RolledBack_example :
    RolledBack calls alone toy no_owner_files no_approvals
      (λ t. true)
      2
      []
      some
      no_manifest
      shown
      start
      (rollback_locked calls alone toy no_owner_files no_approvals
        (λ t. true)
        2
        []
        some
        no_manifest
        start
        (codes "/d")
        (codes "/s")
        app)
      (codes "/d")
      (codes "/s")
      app
unfolding weft_os.Package.is_valid_app_id weft_os.Base.split weft_os.Base.all
rollback_locked-RolledBack_example =
    rollback_locked-RolledBack calls alone toy no_owner_files no_approvals (λ t. true) 2 [] some
      no_manifest shown (shelf-Local listing (revisions ++ (b'/' ∷ rev_c)))
      (shelf-Atomic listing (revisions ++ (b'/' ∷ rev_c))) (codes "/d") (codes "/s") app refl
      (λ t. refl) (λ t path text. refl) start

-- One record.
abbrev one_record : Approvals (Option Text)
one_record = record { read_record = λ s p. ok s; write_record = λ s p t. (t, ok tt) }

abbrev no_data : FileSystem Disk
no_data = record {
  symlink_metadata = λ s p. err IoKind.not_found;
  create_dir_all = λ s p. (s, ok tt);
  create_private_dir_all = λ s p. (s, ok tt);
  rename_no_replace = λ s a b. (s, ok tt);
  remove_dir = λ s p. (s, ok tt);
  set_private = λ s p. (s, ok tt);
  parent = λ p. none;
}

abbrev no_keys : weft_os.Base.Disk.Disk
no_keys = record {
  symlink_metadata = λ p. err not_found;
  read_link = λ p. err not_found;
  read = λ p. err not_found;
  read_dir = λ p. err not_found;
}

abbrev no_records : Disk
no_records = record { names = []; bytes = λ f. [] }

abbrev owner_path : Text
owner_path = codes "/d/weft/owners/com.example.notes"

abbrev admitted : Disk × Result PackError (Admission ToyKey)
admitted =
    admit toy records no_data (λ s. no_keys) (λ t. true) 2 [] (some (codes "/h")) (codes "42")
      no_records (codes "/s/.staging-1") app development (codes "/d") false

abbrev admission : Admission ToyKey
admission = record { owner = Owner.development; created_record = some owner_path }
