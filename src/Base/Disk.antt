-- ===== src/Base/Disk.antt =====
-- What reading calls of `std::fs` report of the file system at one moment.
use mathlib.Core.List.{List}
use weft_os.Base.Results.{Result}
use weft_os.Base.Str.{Text}

-- `std::io::ErrorKind`, as far as the callers tell kinds apart
pub data ErrorKind : Type 0 where
  not_found would_block invalid_data already_exists other_error : ErrorKind

-- `FileType` of the entry itself, a link not followed
pub data FileType : Type 0 where
  regular folder link special : FileType

-- `read_dir` yields the names of the entries. Every name is UTF-8 text.
pub record Disk : Type 0 where
  pub symlink_metadata : Text → Result ErrorKind FileType
  pub read_link : Text → Result ErrorKind Text
  pub read : Text → Result ErrorKind Text
  pub read_dir : Text → Result ErrorKind (List (Result ErrorKind Text))
