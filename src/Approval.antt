-- ===== src/Approval.antt =====
-- crates/weft-ipc-types/src/approval.rs: which declared capabilities the user has to approve, and
-- the record of those approved. A record is the text of its file, or none; what is trimmed is
-- ASCII white space.
pub mod Lines
pub mod Record
mod Examples
use weft_os.Base.{
  ℕ, Bool, true, false, ◌&&◌, ◌||◌, not, List, [], ◌∷◌, ◌++◌, Option, none, some, Text, text_eq,
  any, filter, map, is_empty, leb, ltb, ◌==◌, push_front, trim, text_less, Result, ok, err,
  if◌then◌else◌,
}
use weft_os.Capability.{Access, Capability, app_data, UnknownCapability, from_str}

-- the closure of `is_ok_and`
approvable : Result UnknownCapability Capability → Bool
approvable (err e) = false
approvable (ok (app_data access)) = false
approvable (ok c) = true

unfoldable pub needs_approval : Text → Bool
unfolding approvable
needs_approval capability = approvable (from_str capability)

-- membership in a set of strings
abbrev pub holds : Text → List Text → Bool
holds c approved = any (λ a. text_eq a c) approved

unfoldable pub unapproved : List Text → List Text → List Text
unapproved declared approved = filter (λ c. needs_approval c && not (holds c approved)) declared

-- `str::lines`, up to the `\r` that `trim` takes too
unfoldable pub lines : Text → List Text
lines [] = []
lines (b ∷ text) = let rest = lines text in if b == b'\n' then [] ∷ rest else push_front b rest

unfoldable pub read_approved : Option Text → List Text
unfolding lines trim
read_approved none = []
read_approved (some text) = filter (λ l. not (is_empty l)) (map trim (lines text))

-- `BTreeSet::insert`
pub insert_text : Text → List Text → List Text
unfolding text_less
insert_text t [] = t ∷ []
insert_text t (u ∷ us) =
    let rest = insert_text t us in
    if text_eq t u then u ∷ us else if text_less t u then t ∷ u ∷ us else u ∷ rest

unfoldable pub text_set : List Text → List Text
unfolding insert_text
text_set [] = []
text_set (t ∷ ts) = insert_text t (text_set ts)

-- the `writeln!` of each capability
unfoldable pub written : List Text → Text
written [] = []
written (c ∷ cs) = c ++ (b'\n' ∷ written cs)

pub record_of : List Text → Option Text
record_of [] = none
record_of (c ∷ cs) = some (written (c ∷ cs))

-- the record that `write_approved` leaves, when its calls succeed
unfoldable pub write_approved : List Text → Option Text
unfolding record_of text_set
write_approved declared = record_of (text_set (filter needs_approval declared))
