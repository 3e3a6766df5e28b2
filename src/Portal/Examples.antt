-- ===== src/Portal/Examples.antt =====
-- A directory held in memory, with one file, and a session that may write to it.
use weft_os.Base.{
  ℕ, zero, suc, ◌≡◌, ◌≢◌, refl, sym, ap, ◌∙◌, ◌+◌, ◌==◌, ==_iff, Bool, true, false, Bool-cases, inl,
  inr, List, [], ◌∷◌, ◌++◌, Option, none, some, Text, codes, text_eq, text_eq→eq, text_eq_refl,
  length, Result, ok, err, if◌then◌else◌, arith,
}
use weft_os.Portal.{
  Request, write_file, Response, done, failed, temporary_prefix, Root, locate, denied,
}
use weft_os.Portal.Kernel.{Errno}
use weft_os.Portal.Memory.{Disk, memory, watch, Lawful_memory}
use weft_os.Portal.Files.{split_last, write}
use weft_os.Portal.Files.Atomic.{Wrote, write-Wrote}

abbrev notes : Disk
notes = record { names = (codes "a.txt", 0) ∷ []; bytes = λ f. codes "old" }

abbrev granted_root : Root ℕ
granted_root = record { path = codes "/home/u/docs"; dir = 0; writable = true }

abbrev words : Errno → Text
words e = codes "error"

abbrev stamps : ℕ → Text
stamps n = codes "1-2-3"

abbrev plain : Text → Result Text Text
plain t = ok t

abbrev a_write : Request
a_write = write_file (codes "/home/u/docs/a.txt") (codes "new")

outside_is_denied :
    locate (granted_root ∷ []) (codes "/home/u/docs/../x") true
    ≡ err (denied (codes "/home/u/docs/../x"))
unfolding locate weft_os.Portal.find_root weft_os.Portal.relative_to weft_os.Base.starts_with
    weft_os.Base.all weft_os.Base.split text_eq
outside_is_denied = refl

not_temporary :
    (above : List Text) (name : Text)
    → split_last (codes "a.txt" ∷ []) ≡ some (above, name)
    → name ≢ temporary_prefix ++ stamps 0
unfolding split_last
not_temporary above name h e = ground arith

write-Wrote_example :
    Wrote memory words watch stamps
      (notes, 0)
      granted_root
      (split_last (codes "a.txt" ∷ []))
      (codes "new")
      (write memory words stamps (notes, 0) granted_root (codes "a.txt" ∷ []) (codes "new"))
write-Wrote_example =
    write-Wrote memory words watch Lawful_memory stamps (notes, 0) granted_root (codes "new")
      (codes "a.txt" ∷ []) not_temporary

abbrev no_parser : Text → Result Text Request
no_parser t = err (codes "no request")
