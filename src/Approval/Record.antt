-- ===== src/Approval/Record.antt =====
-- What the record of an approval says afterwards.
use weft_os.Base.{
  is_clean, ◌≡◌, refl, ◌∙◌, ap, inl, inr, Bool, true, false, Bool-cases, ◌&&◌, ◌||◌, not, List, [],
  ◌∷◌, Text, text_eq, text_eq→eq, text_eq_refl, any, all, filter, is_empty, arith, Result, ok, err,
}
use weft_os.Capability.{
  read, read_write, any_host, host, Capability, app_data, documents, fetch, notifications,
  clipboard_read, clipboard_write, gpu_compute, gpu_render, UnknownCapability, IsCanonical,
  from_str, to_string,
}
use weft_os.Capability.RoundTrip.{from_str-IsCanonical}
use weft_os.Capability.Host.Bytes.{is_host_byte, is_host_name-bytes}
use weft_os.Approval.{
  approvable, needs_approval, holds, unapproved, insert_text, text_set, read_approved,
  write_approved,
}
use weft_os.Approval.Lines.{AllClean, read-record_of}

approvable-ok :
    (r : Result UnknownCapability Capability) → approvable r ≡ true → (c : Capability) × (r ≡ ok c)
unfolding approvable
approvable-ok (err e) h = cc
approvable-ok (ok c) h = (c, refl)

host-clean : (h : Text) → all is_host_byte h ≡ true → is_clean h ≡ true
unfolding all
host-clean [] e = refl
host-clean (b ∷ h) e = ground (arith, host-clean h)

to_string-clean :
    (c : Capability)
    → IsCanonical c
    → (is_clean (to_string c) ≡ true) × (is_empty (to_string c) ≡ false)
unfolding to_string all
to_string-clean (app_data read) v = (refl, refl)
to_string-clean (app_data read_write) v = (refl, refl)
to_string-clean (documents read) v = (refl, refl)
to_string-clean (documents read_write) v = (refl, refl)
to_string-clean (fetch any_host) v = (refl, refl)
to_string-clean (fetch (host h)) v = (host-clean h (is_host_name-bytes h v).0, refl)
to_string-clean notifications v = (refl, refl)
to_string-clean clipboard_read v = (refl, refl)
to_string-clean clipboard_write v = (refl, refl)
to_string-clean gpu_compute v = (refl, refl)
to_string-clean gpu_render v = (refl, refl)

needs_approval-clean :
    (s : Text) → needs_approval s ≡ true → (is_clean s ≡ true) × (is_empty s ≡ false)
unfolding needs_approval
needs_approval-clean s h =
    let known = approvable-ok (from_str s) h in
    let printed = from_str-IsCanonical s known.0 known.1 in
    rw⁻¹ printed.0 (to_string-clean known.0 printed.1)

AllClean-insert_text :
    (t : Text) (us : List Text)
    → (is_clean t ≡ true) × (is_empty t ≡ false)
    → AllClean us
    → AllClean (insert_text t us)
unfolding insert_text
AllClean-insert_text t [] h hs = (h.0, h.1, tt)
AllClean-insert_text t (u ∷ us) h hs = ground (arith, AllClean-insert_text t us h hs.2)

AllClean-approved : (declared : List Text) → AllClean (text_set (filter needs_approval declared))
unfolding text_set filter
AllClean-approved [] = tt
AllClean-approved (s ∷ declared) = elim (Bool-cases (needs_approval s)) [
  | inl e ↦ rw e (
      AllClean-insert_text s (text_set (filter needs_approval declared)) (needs_approval-clean s e)
        (AllClean-approved declared))
  | inr e ↦ rw e (AllClean-approved declared)
]

pub holds-insert_text :
    (c t : Text) (us : List Text) → holds c (insert_text t us) ≡ (text_eq t c || holds c us)
unfolding insert_text any
holds-insert_text c t [] = refl
holds-insert_text c t (u ∷ us) = elim (Bool-cases (text_eq t u)) [
  | inl e ↦ rw (text_eq→eq t u e, text_eq_refl u) (ground arith)
  | inr e ↦ ground (arith, holds-insert_text c t us)
]

holds-approved :
    (c : Text) (declared : List Text)
    → holds c (text_set (filter needs_approval declared)) ≡ (holds c declared && needs_approval c)
unfolding text_set filter any
holds-approved c [] = refl
holds-approved c (s ∷ declared) = elim (Bool-cases (needs_approval s)) [
  | inl e ↦ rw e (
      holds-insert_text c s (text_set (filter needs_approval declared))
      ∙ ground (
        arith,
        holds-approved c declared,
        λ (h : text_eq s c ≡ true). ap needs_approval (text_eq→eq s c h),
      ))
  | inr e ↦ rw e (
      ground (
        arith,
        holds-approved c declared,
        λ (h : text_eq s c ≡ true). ap needs_approval (text_eq→eq s c h),
      ))
]

-- The record of an approval holds exactly the capabilities that were declared and need approval.
pub holds-write_approved :
    (c : Text) (declared : List Text)
    → holds c (read_approved (write_approved declared)) ≡ (holds c declared && needs_approval c)
unfolding write_approved
holds-write_approved c declared =
    rw (read-record_of (text_set (filter needs_approval declared)) (AllClean-approved declared))
      (holds-approved c declared)

pub holds-filter :
    (p : Text → Bool) (c : Text) (xs : List Text) → holds c (filter p xs) ≡ (holds c xs && p c)
unfolding filter any
holds-filter p c [] = refl
holds-filter p c (x ∷ xs) =
    ground (arith, holds-filter p c xs, λ (h : text_eq x c ≡ true). ap p (text_eq→eq x c h))

-- After the capabilities of one version are approved, what a version has unapproved is exactly what
-- it declares, needs approval, and was not declared by the approved version.
pub unapproved-write_approved :
    (c : Text) (approved declared : List Text)
    → holds c (unapproved declared (read_approved (write_approved approved)))
      ≡ (holds c declared && (needs_approval c && not (holds c approved)))
unfolding unapproved
unapproved-write_approved c approved declared =
    holds-filter (λ s. needs_approval s && not (holds s (read_approved (write_approved approved))))
      c declared
    ∙ ground (arith, holds-write_approved c approved)

pub holds-text_set : (c : Text) (xs : List Text) → holds c (text_set xs) ≡ holds c xs
unfolding text_set any
holds-text_set c [] = refl
holds-text_set c (x ∷ xs) =
    holds-insert_text c x (text_set xs) ∙ ground (arith, holds-text_set c xs)
