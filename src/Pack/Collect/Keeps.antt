-- ===== src/Pack/Collect/Keeps.antt =====
-- About the loops of `collect` and a path that they spare.
use weft_os.Base.{
  ◌≡◌, refl, ◌∙◌, Bool, true, false, not, ◌&&◌, ◌||◌, Bool-cases, inl, inr, List, [], ◌∷◌, ◌++◌,
  Option, none, some, Text, codes, any, text_eq, starts_with, arith, strip_prefix,
  strip_prefix-eq-some, if◌then◌else◌, Option-cases, ℕ, all, is_digit, leb, text_eq→eq, &&-eq-true,
  append_assoc,
}
use weft_os.Base.Paths.{join}
use weft_os.Base.Paths.Below.{within, spot, within-spot}
use weft_os.Base.Steps.{if-same}
use weft_os.Package.{is_valid_app_id}
use weft_os.Store.{revisions_of, is_revision_name}
use weft_os.Pack.Collect.Around.{
  is_granted, Spared, granted-same, remove_granted-same, remove_file-same, each-same,
}
use weft_os.Store.Pin.{try_claim}
use weft_os.Pack.{Calls, previous_link, ignored, previous_revision, remove_claimed, abandoned}
use weft_os.Pack.Collect.{
  remove_granted, collect_revision, collect_temporary, is_link, begins, each, kept, collect,
  dir_names,
}
use weft_os.Pack.Seen.{Entry, Local}
use weft_os.Pack.Seen.Paths.{Clear, hidden, join-revisions_of, revisions_of-spot}
use weft_os.Pack.Seen.Small.{remove_claimed-same}

starts_with-eq : (c : ℕ) (name : Text) → starts_with c name ≡ true → (n : Text) × (name ≡ c ∷ n)
unfolding starts_with
starts_with-eq c [] h = cc
starts_with-eq c (b ∷ n) h = (n, ground arith)

begins-eq :
    (prefix name : Text) → begins prefix name ≡ true → (rest : Text) × (name ≡ prefix ++ rest)
begins-eq prefix name h = elim (Option-cases (strip_prefix prefix name)) [
  | inl e ↦ cc
  | inr (rest, e) ↦ (rest, strip_prefix-eq-some prefix name rest e)
]

-- A revision name is hexadecimal.
pub starts_with-revision_name :
    (c : ℕ) (name : Text)
    → is_revision_name name ≡ true
    → (is_digit c || (leb b'a' c && leb c b'f')) ≡ false
    → starts_with c name ≡ false
unfolding is_revision_name starts_with all
starts_with-revision_name c [] h e = refl
starts_with-revision_name c (b ∷ n) h e = ground arith

module _ {ℓ} {S File : Type ℓ} (k : Calls S File) (seen : S → Text → List Entry)
    (here : Local k seen) (others : S → S) (store id y : Text) (valid : is_valid_app_id id ≡ true)
    (quiet : (s : S) → seen (others s) (spot store y) ≡ seen s (spot store y)) where
  -- a directory removed with a claim
  taken-same :
      (s : S) (path : Text) (remove : S → S)
      → ((t : S)
          → is_granted (try_claim k.locks others s path) ≡ true
          → seen (remove t) (spot store y) ≡ seen t (spot store y))
      → seen (remove_granted k others (try_claim k.locks others s path) remove) (spot store y)
        ≡ seen s (spot store y)
  taken-same s path remove h =
      remove_granted-same k seen here others (spot store y) quiet (try_claim k.locks others s path)
        remove (λ e. h _ e)
      ∙ granted-same k seen here others (spot store y) quiet s path

  module _ (keep : List Text) (spared : Spared k seen here others store id y keep) where
    named-apart :
        (name : Text)
        → starts_with b'/' name ≡ false
        → within (hidden ++ (id ++ (b'/' ∷ name))) y ≡ false
        → within (join (revisions_of store id) name) (spot store y) ≡ false
    named-apart name h apart = rw (join-revisions_of store id valid name h, within-spot store) apart

    previous-same :
        (s : S) (o : Option Text) (name : Text)
        → text_eq name previous_link ≡ true
        → seen
            (elim o [
              | none ↦ ignored k (k.remove_file s (join (revisions_of store id) name))
              | some rev ↦ s
            ])
            (spot store y)
          ≡ seen s (spot store y)
    unfolding starts_with
    previous-same s none name h =
        here.remove_file-else s _ (spot store y)
          (rw (text_eq→eq name previous_link h) (named-apart previous_link refl spared.previous))
    previous-same s (some rev) name h = refl

    dotted-same :
        (s : S) (b : Bool) (name : Text)
        → starts_with b'.' name ≡ true
        → seen
            (if b then ignored k (k.remove_file s (join (revisions_of store id) name)) else s)
            (spot store y)
          ≡ seen s (spot store y)
    unfolding starts_with
    dotted-same s b name h =
        let (n, e) = starts_with-eq b'.' name h in
        rw e (
          remove_file-same k seen here others (spot store y) quiet b s _
            (named-apart (b'.' ∷ n) refl (spared.dotted n)))

    revision-same :
        (s : S) (name : Text)
        → (not (is_revision_name name) || any (λ n. text_eq n name) keep) ≡ false
        → seen
            (remove_granted k others
              (try_claim k.locks others s (join (revisions_of store id) name))
              (λ t. remove_claimed k t store (join (revisions_of store id) name)))
            (spot store y)
          ≡ seen s (spot store y)
    revision-same s name h =
        let is_name : is_revision_name name ≡ true = ground arith in
        let path = join (revisions_of store id) name in
        taken-same s path (λ t. remove_claimed k t store path)
          λ t granted.
            remove_claimed-same k seen here store y t path
              (named-apart name (starts_with-revision_name b'/' name is_name refl)
                (spared.unkept s name is_name (ground arith) granted))
              spared.trash

    collect_revision-same :
        (s : S) (name : Text)
        → seen (collect_revision k others store id keep s name) (spot store y)
          ≡ seen s (spot store y)
    unfolding collect_revision
    collect_revision-same s name =
        let q = spot store y in
        let path = join (revisions_of store id) name in
        if-same (λ t. seen t q) (text_eq name previous_link) _ _ (seen s q)
          (λ e. previous-same s (previous_revision k s store id) name e)
          λ e.
            if-same (λ t. seen t q) (starts_with b'.' name) _ _ (seen s q)
              (λ f. dotted-same s (is_link k others s path) name f)
              λ f.
                if-same (λ t. seen t q)
                  (not (is_revision_name name) || any (λ n. text_eq n name) keep) _ _ (seen s q)
                  (λ g. refl) λ g. revision-same s name g

    link-Clear : Clear (codes ".link-" ++ (id ++ codes "-")) y
    link-Clear r = rw (append_assoc id) (spared.links (id ++ (codes "-" ++ r)))

    temporary-apart :
        (start name : Text)
        → Clear (b'.' ∷ start) y
        → begins (b'.' ∷ start) name ≡ true
        → within (join store name) (spot store y) ≡ false
    unfolding starts_with
    temporary-apart start name clear h =
        let (rest, e) = begins-eq (b'.' ∷ start) name h in rw (e, within-spot store) (clear rest)

    -- the three kinds of directory that an interrupted operation leaves
    leftover-apart :
        (name : Text)
        → (begins (codes ".staging-") name
            || (begins (codes ".unpack-") name || begins (codes ".trash-") name))
          ≡ true
        → within (join store name) (spot store y) ≡ false
    leftover-apart name h = elim (Bool-cases (begins (codes ".staging-") name)) [
      | inl e ↦ temporary-apart (codes "staging-") name spared.staging e
      | inr e ↦ elim (Bool-cases (begins (codes ".unpack-") name)) [
        | inl f ↦ temporary-apart (codes "unpack-") name spared.unpack f
        | inr f ↦ temporary-apart (codes "trash-") name spared.trash (rw (e, f) at h)
      ]
    ]

    link-same :
        (s : S) (b : Bool) (path : Text)
        → within path (spot store y) ≡ false
        → seen
            (if b
              then ignored k (k.remove_file s path)
              else remove_granted k others
                  (try_claim k.locks others s path)
                  (λ t. remove_claimed k t store path))
            (spot store y)
          ≡ seen s (spot store y)
    link-same s true path apart = here.remove_file-else s path (spot store y) apart
    link-same s false path apart =
        taken-same s path (λ t. remove_claimed k t store path)
          λ t granted. remove_claimed-same k seen here store y t path apart spared.trash

    collect_temporary-same :
        (s : S) (name : Text)
        → seen (collect_temporary k others store id s name) (spot store y) ≡ seen s (spot store y)
    unfolding collect_temporary
    collect_temporary-same s name =
        let q = spot store y in
        let path = join store name in
        let leftover =
          begins (codes ".staging-") name
          || (begins (codes ".unpack-") name || begins (codes ".trash-") name) in
        if-same (λ t. seen t q) (begins (codes ".link-" ++ (id ++ codes "-")) name) _ _ (seen s q)
          (λ e.
            link-same s (is_link k others s path) path
              (temporary-apart (codes "link-" ++ (id ++ codes "-")) name (λ r. link-Clear r) e))
          λ e.
            if-same (λ t. seen t q) (leftover && abandoned k s path) _ _ (seen s q)
              (λ f.
                taken-same s path (λ t. ignored k (k.remove_dir_all t path))
                  λ t granted.
                    here.remove_dir_all-else t path q
                      (leftover-apart name (&&-eq-true leftover (abandoned k s path) f).0))
              λ f. refl

  pub collect-same :
      (s : S)
      → Spared k seen here others store id y (kept k others s store id)
      → seen (collect k others s store id) (spot store y) ≡ seen s (spot store y)
  unfolding collect
  collect-same s spared =
      let q = spot store y in
      let keep = kept k others s store id in
      let revisions = revisions_of store id in
      let s1 =
        each (collect_revision k others store id keep) s
          (dir_names ((k.report s).read_dir revisions)) in
      each-same k seen here others q quiet (collect_temporary k others store id) _ _
        (collect_temporary-same keep spared)
      ∙ (here.remove_dir-else s1 revisions q (rw (revisions_of-spot store id valid) spared.own_dir)
          ∙ each-same k seen here others q quiet (collect_revision k others store id keep) s _
              (collect_revision-same keep spared))
