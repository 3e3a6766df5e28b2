-- ===== src/Pack/Switch/Once.antt =====
-- About `activate`: what becomes of the entry at the package's name.
use weft_os.Base.{
  ◌≡◌, refl, sym, subst, ◌∙◌, ap, ℕ, Bool, true, false, Bool-cases, inl, inr, Text, text_eq, codes,
  List, [], ◌∷◌, ◌++◌, Result, ok, err, is_ok, ok-injective, arith, Option, none, some,
}
use weft_os.Base.Disk.{ErrorKind}
use weft_os.Base.Paths.{join}
use weft_os.Base.Steps.{after}
use weft_os.Base.Paths.Below.{within, within-text_eq, spot}
use weft_os.Package.{is_valid_app_id}
use weft_os.Store.{revisions_of, link_target, Active, revision, directory, active}
use weft_os.Pack.{Calls, PackError, context, temporary_link}
use weft_os.Pack.Switch.{
  in_store, keep_current, put_link, switch, tidy, settle, activate_with, activate_over, activate,
}
use weft_os.Pack.Seen.{Entry, link_to, newest, Local, Atomic}
use weft_os.Pack.Switch.Around.{keep_current-same, restore_kept-same}
use weft_os.Pack.Seen.Paths.{Clear-app_id, join-app_id}
use weft_os.Pack.Seen.Small.{sync_dir-same, within-Clear, temporary_link-same, remove_claimed-same}

module _ {ℓ} {S File : Type ℓ} (k : Calls S File) (seen : S → Text → List Entry) where
  -- On success the path got this link and nothing else; an error left it as it was.
  abbrev pub Switched {κ} : {E : Type κ} → Text → Text → S → S × Result E (Unit {0}) → Type 0
  Switched path target s (t, ok done) = seen t path ≡ link_to target ∷ seen s path
  Switched path target s (t, err e) = seen t path ≡ seen s path

  Switched-before {κ} :
      {E : Type κ} (path target : Text) (s s' : S) (m : S × Result E (Unit {0}))
      → seen s' path ≡ seen s path
      → Switched path target s' m
      → Switched path target s m
  Switched-before path target s s' (t, ok done) same h = rw⁻¹ same h
  Switched-before path target s s' (t, err e) same h = h ∙ same

  Switched-answer {κ} :
      {E : Type κ} (path target : Text) (s : S) (m : S × Result E (Unit {0}))
      → (is_ok m.1 ≡ true → seen m.0 path ≡ link_to target ∷ seen s path)
      → (is_ok m.1 ≡ false → seen m.0 path ≡ seen s path)
      → Switched path target s m
  Switched-answer path target s (t, ok done) done_ok failed = done_ok refl
  Switched-answer path target s (t, err e) done_ok failed = failed refl

  after-Switched {κ μ} :
      {E : Type κ} {A : Type μ} (path target : Text) (s : S) (m : S × Result E A)
      (rest : S → A → S × Result E (Unit {0}))
      → seen m.0 path ≡ seen s path
      → ((a : A) → m.1 ≡ ok a → Switched path target m.0 (rest m.0 a))
      → Switched path target s (after m rest)
  after-Switched path target s (t, err e) rest same later = same
  after-Switched path target s (t, ok a) rest same later =
      Switched-before path target s t (rest t a) same (later a refl)

  Switched-context :
      (path target what : Text) (s t : S) (answer : Result ErrorKind (Unit {0}))
      → Switched path target s (t, answer)
      → Switched path target s (t, context what answer)
  unfolding context
  Switched-context path target what s t (ok done) h = h
  Switched-context path target what s t (err e) h = h

  module _ (here : Local k seen) (laws : Atomic k seen) (store id target : Text)
      (valid : is_valid_app_id id ≡ true) where
    renamed-Switched :
        (s : S) (link path : Text)
        → text_eq link path ≡ false
        → newest (seen s link) ≡ link_to target
        → Switched path target s (k.rename s link path)
    renamed-Switched s link path other shown =
        Switched-answer path target s (k.rename s link path)
          (λ e. laws.rename-ok s link path other e ∙ ap (λ entry. entry ∷ seen s path) shown)
          (laws.rename-err s link path)

    put_link-Switched :
        (s : S) (current : Option Active) (link path : Text)
        → text_eq link path ≡ false
        → newest (seen s link) ≡ link_to target
        → Switched path target s (put_link k s current link path)
    unfolding put_link
    put_link-Switched s (some (directory d)) link path other shown =
        Switched-answer path target s (k.exchange s link path)
          (λ e. laws.exchange-ok s link path other e ∙ ap (λ entry. entry ∷ seen s path) shown)
          (laws.exchange-err s link path)
    put_link-Switched s (some (revision name d)) link path other shown =
        renamed-Switched s link path other shown
    put_link-Switched s none link path other shown = renamed-Switched s link path other shown

    switch-Switched :
        (s : S) (current : Option Active) (link path : Text)
        → text_eq link path ≡ false
        → newest (seen s link) ≡ link_to target
        → Switched path target s (switch k s current link path)
    unfolding switch context
    switch-Switched s current link path other shown =
        Switched-context path target _ s _ _ (put_link-Switched s current link path other shown)

    tidy-same :
        (s : S) (current : Option Active) (link : Text)
        → within link (spot store id) ≡ false
        → seen (tidy k s current store link) (spot store id) ≡ seen s (spot store id)
    unfolding tidy
    tidy-same s none link apart = refl
    tidy-same s (some (revision name d)) link apart = refl
    tidy-same s (some (directory d)) link apart =
        remove_claimed-same k seen here store id s link apart
          (λ rest. Clear-app_id id (codes "trash-") valid rest)

    settle-Switched :
        (s s' : S) (answer : Result PackError (Unit {0})) (link rev : Text)
        (current : Option Active) (before : Result ErrorKind Text)
        → within link (spot store id) ≡ false
        → Switched (spot store id) target s (s', answer)
        → Switched
            (spot store id)
            target
            s
            (settle k s' answer store link current before (revisions_of store id) rev)
    unfolding settle
    settle-Switched s s' (err e) link rev current before apart h =
        restore_kept-same k seen here store id valid id
          (λ rest. Clear-app_id id (codes "revisions/") valid rest) _ current before rev
        ∙ (here.remove_file-else s' link (spot store id) apart ∙ h)
    settle-Switched s s' (ok done) link rev current before apart h =
        tidy-same _ current link apart ∙ (sync_dir-same k seen here s' store (spot store id) ∙ h)

    Switched-after_keep :
        (s : S) (current : Option Active) (rev rest : Text)
        → newest (seen s (spot store (codes ".link-" ++ rest))) ≡ link_to target
        → Switched (spot store id) target s (
            after
              (keep_current k s current (revisions_of store id) rev)
              λ t done. switch k t current (spot store (codes ".link-" ++ rest)) (spot store id))
    unfolding within
    Switched-after_keep s current rev rest shown =
        after-Switched (spot store id) target s
          (keep_current k s current (revisions_of store id) rev)
          (λ t done. switch k t current (spot store (codes ".link-" ++ rest)) (spot store id))
          (keep_current-same k seen here store id valid id
            (λ r. Clear-app_id id (codes "revisions/") valid r) s current rev)
          λ done e.
            let link = codes ".link-" ++ rest in
            switch-Switched _ current (spot store link) (spot store id)
              (within-text_eq (spot store link) (spot store id) (
                within-Clear k seen here store id (codes ".link-") rest
                  λ r. Clear-app_id id (codes "link-") valid r))
              (ap newest
                  (keep_current-same k seen here store id valid link (λ r. refl) s current rev)
                ∙ shown)

    activate_with-Switched :
        (s : S) (current : Option Active) (rev rest : Text)
        → newest (seen s (spot store (codes ".link-" ++ rest))) ≡ link_to target
        → Switched
            (spot store id)
            target
            s
            (activate_with k store id rev current s (spot store (codes ".link-" ++ rest)))
    unfolding activate_with
    activate_with-Switched s current rev rest shown = rw (join-app_id store id valid) (
        settle-Switched s _ _ _ rev current _
          (within-Clear k seen here store id (codes ".link-") rest
            λ r. Clear-app_id id (codes "link-") valid r)
          (Switched-after_keep s current rev rest shown))

  made-eq-ok :
      (what link found : Text) (answer : Result ErrorKind (Unit {0}))
      → elim (context what answer) [ err e ↦ err e | ok done ↦ ok link ] ≡ ok found
      → (is_ok answer ≡ true) × (link ≡ found)
  unfolding context
  made-eq-ok what link found (err e) h = cc
  made-eq-ok what link found (ok done) h = (refl, ok-injective h)

  temporary_link-shown :
      (laws : Atomic k seen) (store id target : Text) (s : S) (found : Text)
      → (temporary_link k s store id target).1 ≡ ok found
      → (rest : Text) × (found ≡ spot store (codes ".link-" ++ rest))
        × (newest (seen (temporary_link k s store id target).0 found) ≡ link_to target)
  unfolding temporary_link weft_os.Base.starts_with newest
  temporary_link-shown laws store id target s found h =
      let (s1, name) = k.random_name s in
      let rest = id ++ (b'-' ∷ name) in
      let link = spot store (codes ".link-" ++ rest) in
      let (made, e) = made-eq-ok _ link found _ h in
      (rest, sym e, rw⁻¹ e (ap newest (laws.symlink-ok s1 target link made)))

  module _ (here : Local k seen) (laws : Atomic k seen) (store id rev : Text)
      (valid : is_valid_app_id id ≡ true) where
    activate_over-Switched :
        (s : S) (current : Option Active)
        → Switched (spot store id) (link_target id rev) s (activate_over k store id rev s current)
    unfolding activate_over
    activate_over-Switched s current =
        let target = link_target id rev in
        after-Switched (spot store id) target s (temporary_link k s store id target)
          (λ t found. activate_with k store id rev current t found)
          (temporary_link-same k seen here store id s id target
            λ r. Clear-app_id id (codes "link-") valid r)
          λ found e.
            let (rest, place, shown) = temporary_link-shown laws store id target s found e in
            rw place (
              activate_with-Switched here laws store id target valid _ current rev rest
                (rw place at shown))

    -- Under the laws of the calls, an activation that succeeds puts the link to the revision at the
    -- package's name in one step, and one that fails leaves what was there, so that an interruption
    -- finds the one or the other.
    pub activate-Switched :
        (s : S) → Switched (join store id) (link_target id rev) s (activate k s store id rev)
    unfolding activate in_store
    activate-Switched s =
        subst (λ q. Switched q (link_target id rev) s (activate k s store id rev))
          (sym (join-app_id store id valid))
          (after-Switched (spot store id) (link_target id rev) s
            (s, in_store (active (k.report s) store id))
            (λ t current. activate_over k store id rev t current) refl
            λ current e. activate_over-Switched s current)
