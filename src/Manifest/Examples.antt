-- ===== src/Manifest/Examples.antt =====
-- A package with a module in a directory, and a link.
use weft_os.Base.{
  ◌≡◌, refl, Bool, true, false, ◌||◌, List, [], ◌∷◌, Option, none, some, Text, codes, text_eq,
  if◌then◌else◌, Result, ok, err,
}
use weft_os.Base.Disk.{Disk, not_found, other_error, regular, folder, link}
use weft_os.Manifest.{
  Manifest, ask, parse, read_manifest, manifest_io, manifest_parse, not_contained, entry_link,
  not_a_file, entry_path,
}
use weft_os.Manifest.Entries.{Entered, entry_path-Entered}

abbrev disk : Disk
disk = record {
  symlink_metadata = λ p.
      if text_eq p (codes "/p/wasm/app.wasm")
      then ok regular
      else if text_eq p (codes "/p/wasm")
      then ok folder
      else if text_eq p (codes "/p/ui")
      then ok link
      else err not_found;
  read_link = λ p. err other_error;
  read = λ p. if text_eq p (codes "/p/wapp.toml") then ok (codes "x") else err not_found;
  read_dir = λ p. err other_error;
}

abbrev toml : Text → Result Text Manifest
toml s =
    if text_eq s (codes "x")
    then ok (record {
      package_meta = record {
        id = codes "com.example.notes";
        name = codes "Notes";
        version = codes "1";
        description = none;
        author = none;
        capabilities = some (codes "fs:rw:app-data" ∷ []);
      };
      runtime = record { wasm_module = codes "wasm/app.wasm" };
      ui = record { entry = codes "ui/index.html"; close = ask };
    })
    else err (codes "bad")

read_manifest_ok :
    read_manifest some toml disk (codes "/p") ≡ parse some toml (codes "/p/wapp.toml") (codes "x")
unfolding read_manifest text_eq weft_os.Base.starts_with weft_os.Base.ends_with
read_manifest_ok = refl

read_manifest_missing :
    read_manifest some toml disk (codes "/q") ≡ err (manifest_io (codes "/q/wapp.toml") not_found)
unfolding read_manifest text_eq weft_os.Base.starts_with weft_os.Base.ends_with
read_manifest_missing = refl

parse_bad :
    parse some toml (codes "/m") (codes "y") ≡ err (manifest_parse (codes "/m") (codes "bad"))
unfolding parse text_eq
parse_bad = refl

entry_path_inside :
    entry_path disk (codes "/p") (codes "wasm//app.wasm") ≡ ok (codes "/p/wasm/app.wasm")
unfolding entry_path weft_os.Base.Paths.components weft_os.Base.starts_with weft_os.Base.split
    text_eq weft_os.Base.all weft_os.Base.ends_with
entry_path_inside = refl

entry_path_outside :
    entry_path disk (codes "/p") (codes "../app.wasm") ≡ err (not_contained (codes "../app.wasm"))
unfolding entry_path weft_os.Base.Paths.components weft_os.Base.starts_with weft_os.Base.split
    text_eq weft_os.Base.all
entry_path_outside = refl

entry_path_directory : entry_path disk (codes "/p") (codes "wasm") ≡ err (not_a_file (codes "wasm"))
unfolding entry_path weft_os.Base.Paths.components weft_os.Base.starts_with weft_os.Base.split
    text_eq weft_os.Base.all weft_os.Base.ends_with
entry_path_directory = refl

entry_path_through_link :
    entry_path disk (codes "/p") (codes "ui/index.html") ≡ err (entry_link (codes "ui/index.html"))
unfolding entry_path weft_os.Base.Paths.components weft_os.Base.starts_with weft_os.Base.split
    text_eq weft_os.Base.all weft_os.Base.ends_with
entry_path_through_link = refl

entry_path-Entered_example :
    Entered disk
      (codes "/p")
      (codes "wasm/app.wasm")
      (entry_path disk (codes "/p") (codes "wasm/app.wasm"))
entry_path-Entered_example = entry_path-Entered disk (codes "/p") (codes "wasm/app.wasm")
