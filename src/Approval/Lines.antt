-- ===== src/Approval/Lines.antt =====
-- A text of lines, read back.
use weft_os.Base.{
  ◌≡◌, refl, ap, true, false, List, [], ◌∷◌, ◌++◌, some, Text, all, filter, is_empty, push_front,
  is_clean, trim-clean, arith,
}
use weft_os.Approval.{lines, read_approved, written, record_of}

lines-append : (c t : Text) → is_clean c ≡ true → lines (c ++ (b'\n' ∷ t)) ≡ c ∷ lines t
unfolding lines all
lines-append [] t h = refl
lines-append (b ∷ c) t h = rw (lines-append c t (ground arith)) (unfold push_front in ground arith)

abbrev pub AllClean : List Text → Type 0
AllClean [] = Unit
AllClean (c ∷ cs) = (is_clean c ≡ true) × (is_empty c ≡ false) × AllClean cs

read-written : (cs : List Text) → AllClean cs → read_approved (some (written cs)) ≡ cs
unfolding read_approved written filter
read-written [] h = unfold lines in refl
read-written (c ∷ cs) h =
    rw (lines-append c (written cs) h.0, trim-clean c h.0, h.1) (ap (◌∷◌ c) (read-written cs h.2))

pub read-record_of : (cs : List Text) → AllClean cs → read_approved (record_of cs) ≡ cs
unfolding record_of
read-record_of [] h = unfold read_approved in refl
read-record_of (c ∷ cs) h = read-written (c ∷ cs) h
