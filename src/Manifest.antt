-- ===== src/Manifest.antt =====
-- crates/weft-ipc-types/src/manifest.rs: a package's manifest and the files that it names. The TOML
-- reader and the UTF-8 reader are arguments.
pub mod Entries
mod Examples
use weft_os.Base.{
  Bool, true, false, ◌&&◌, not, List, [], ◌∷◌, Option, none, some, Text, codes, ◌++◌, all, is_empty,
  Result, ok, err, ◌>>=◌, if◌then◌else◌, ◌||◌,
}
use weft_os.Base.Paths.{Component, root_dir, cur_dir, parent_dir, normal, components, join}
use weft_os.Base.Disk.{Disk, ErrorKind, invalid_data, FileType, regular, folder, link, special}

abbrev pub manifest_file : Text
manifest_file = codes "wapp.toml"

pub data ClosePolicy : Type 0 where
  immediate ask : ClosePolicy

-- `ClosePolicy::as_str`
unfoldable pub as_str : ClosePolicy → Text
as_str immediate = codes "immediate"
as_str ask = codes "ask"

pub record PackageMeta : Type 0 where
  pub id : Text
  pub name : Text
  pub version : Text
  pub description : Option Text
  pub author : Option Text
  pub capabilities : Option (List Text)

pub record RuntimeMeta : Type 0 where
  pub wasm_module : Text

pub record UiMeta : Type 0 where
  pub entry : Text
  pub close : ClosePolicy

pub record Manifest : Type 0 where
  pub package_meta : PackageMeta
  pub runtime : RuntimeMeta
  pub ui : UiMeta

-- `E` is the TOML reader's error.
pub data ManifestError {ℓ} (E : Type ℓ) : Type ℓ where
  manifest_io : Text → ErrorKind → ManifestError E
  manifest_parse : Text → E → ManifestError E

unfoldable pub manifest_error_text {ℓ} :
    {E : Type ℓ} → (ErrorKind → Text) → (E → Text) → ManifestError E → Text
manifest_error_text shown shown_toml (manifest_io path e) =
    codes "cannot read " ++ (path ++ (codes ": " ++ shown e))
manifest_error_text shown shown_toml (manifest_parse path e) =
    codes "invalid " ++ (path ++ (codes ": " ++ shown_toml e))

-- `from_utf8` gives the text of some bytes, `from_toml` is `toml::from_str`
module _ {ℓ} {E : Type ℓ} (from_utf8 : Text → Option Text)
    (from_toml : Text → Result E Manifest) where
  parsed_toml : Text → Result E Manifest → Result (ManifestError E) Manifest
  parsed_toml path (err e) = err (manifest_parse path e)
  parsed_toml path (ok m) = ok m

  parsed_text : Text → Option Text → Result (ManifestError E) Manifest
  unfolding parsed_toml
  parsed_text path none = err (manifest_io path invalid_data)
  parsed_text path (some text) = parsed_toml path (from_toml text)

  unfoldable pub parse : Text → Text → Result (ManifestError E) Manifest
  unfolding parsed_text
  parse path bytes = parsed_text path (from_utf8 bytes)

  read_bytes : Text → Result ErrorKind Text → Result (ManifestError E) Manifest
  unfolding parse
  read_bytes path (err e) = err (manifest_io path e)
  read_bytes path (ok bytes) = parse path bytes

  -- `Manifest::read`
  unfoldable pub read_manifest : Disk → Text → Result (ManifestError E) Manifest
  unfolding read_bytes
  read_manifest fs package_root =
      let path = join package_root manifest_file in read_bytes path (fs.read path)

-- `Manifest::capabilities`
unfoldable pub capability_names : Manifest → List Text
capability_names m = elim m.package_meta.capabilities [ none ↦ [] | some names ↦ names ]

pub data EntryError : Type 0 where
  not_contained entry_link not_a_file : Text → EntryError

unfoldable pub entry_error_text : EntryError → Text
entry_error_text (not_contained entry) =
    codes "'" ++ (entry ++ codes "' is not a relative path inside the package")
entry_error_text (entry_link entry) =
    codes "'" ++ (entry ++ codes "' passes through a symbolic link")
entry_error_text (not_a_file entry) = codes "'" ++ (entry ++ codes "' is not a file in the package")

is_normal : Component → Bool
is_normal (normal a) = true
is_normal c = false

-- `Component::as_os_str`, which `push` appends
os_str : Component → Text
os_str root_dir = codes "/"
os_str cur_dir = codes "."
os_str parent_dir = codes ".."
os_str (normal a) = a

-- The test on what is at a component's path; `none` is to go on.
refused : Text → Bool → Result ErrorKind FileType → Option EntryError
refused entry last (err e) = some (not_a_file entry)
refused entry last (ok link) = some (entry_link entry)
refused entry last (ok regular) = if last then none else some (not_a_file entry)
refused entry last (ok folder) = if last then some (not_a_file entry) else none
refused entry last (ok special) = some (not_a_file entry)

-- An early return, or the rest of the loop.
unless : Option EntryError → Result EntryError Text → Result EntryError Text
unless none rest = rest
unless (some e) rest = err e

-- the `while let` loop, from `path`
walk : Disk → Text → Text → List Component → Result EntryError Text
unfolding refused os_str unless
walk fs entry path [] = ok path
walk fs entry path (c ∷ cs) =
    let path' = join path (os_str c) in
    unless (refused entry (is_empty cs) (fs.symlink_metadata path')) (walk fs entry path' cs)

unfoldable pub entry_path : Disk → Text → Text → Result EntryError Text
unfolding walk is_normal
entry_path fs package_root entry =
    let cs = components entry in
    if is_empty cs || not (all is_normal cs)
    then err (not_contained entry)
    else walk fs entry package_root cs
