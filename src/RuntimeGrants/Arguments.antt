-- ===== src/RuntimeGrants/Arguments.antt =====
-- The `--preopen HOST::GUEST::MODE` argument, split at its last two `::`.
use mathlib.Core.List.{append_assoc}
use weft_os.Base.{
  ◌≡◌, refl, sym, Bool, true, false, not, [], ◌∷◌, ◌++◌, none, some, Text, codes, ◌==◌, is_empty,
  all, starts_with, arith, ok, text_eq,
}
use weft_os.Capability.{Access, read, read_write}
use weft_os.RuntimeGrants.{starts_colons, rsplit_once, or_shape, access_of, parse_preopen}

abbrev pub no_colon : Text → Bool
no_colon s = all (λ b. not (b == b':')) s

rsplit_once-none : (s : Text) → no_colon s ≡ true → rsplit_once s ≡ none
unfolding rsplit_once starts_colons all
rsplit_once-none [] h = refl
rsplit_once-none (a ∷ []) h = ground arith
rsplit_once-none (a ∷ b ∷ s) h = rw (rsplit_once-none (b ∷ s) (ground arith)) (ground arith)

starts-one_colon : (s : Text) → no_colon s ≡ true → starts_colons (b':' ∷ s) ≡ false
unfolding starts_colons all
starts-one_colon [] h = refl
starts-one_colon (a ∷ s) h = ground arith

pub rsplit_once-append :
    (l r : Text) → no_colon r ≡ true → rsplit_once (l ++ (codes "::" ++ r)) ≡ some (l, r)
unfolding rsplit_once
rsplit_once-append [] r h =
    rw (rsplit_once-none r h, starts-one_colon r h) (unfold starts_colons in refl)
rsplit_once-append (a ∷ l) r h = rw (rsplit_once-append l r h) refl

pub access_of-ro : access_of (codes "ro") ≡ ok read
unfolding access_of text_eq
access_of-ro = refl

pub access_of-rw : access_of (codes "rw") ≡ ok read_write
unfolding access_of text_eq
access_of-rw = refl

pub parse_preopen-joined :
    (h g m : Text) (a : Access)
    → no_colon g ≡ true
    → no_colon m ≡ true
    → access_of m ≡ ok a
    → is_empty h ≡ false
    → starts_with b'/' g ≡ true
    → parse_preopen (h ++ (codes "::" ++ (g ++ (codes "::" ++ m))))
      ≡ ok (record { host_path = h; guest = g; access = a })
unfolding parse_preopen or_shape
parse_preopen-joined h g m a hg hm ha host_path guest =
    rw
      (
        sym (append_assoc h (codes "::" ++ g) (codes "::" ++ m)),
        rsplit_once-append (h ++ (codes "::" ++ g)) m hm,
        rsplit_once-append h g hg,
        ha,
        host_path,
        guest,
      )
      refl
