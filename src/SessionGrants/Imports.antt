-- ===== src/SessionGrants/Imports.antt =====
-- Which capabilities a session's imports are.
use weft_os.Base.{
  ◌≡◌, ◌≢◌, refl, ◌∙◌, ap, ◌↔◌, ◌⊎◌, inl, inr, Bool, true, Bool-cases, List, [], ◌∷◌, ◌++◌, Option,
  none, some, Text, codes, text_eq→eq, any, all, arith, Result, ok, bind-eq-ok,
}
use weft_os.Capability.{
  Access, FetchScope, any_host, host, Capability, app_data, documents, fetch, gpu_compute,
  gpu_render, IsCanonical,
}
use weft_os.RuntimeGrants.Fetch.{In, IsImport, AllImports}
use weft_os.Package.{app_data_dir}
use weft_os.SessionGrants.{
  SessionGrants, HostDirs, access_eq, scope_eq, capability_eq, add_import, grant_dir,
  grant_documents, grant_one, grant_all,
}

access_eq→eq : (a b : Access) → access_eq a b ≡ true → a ≡ b
unfolding access_eq
access_eq→eq a b h = ground arith

scope_eq→eq : (s t : FetchScope) → scope_eq s t ≡ true → s ≡ t
unfolding scope_eq
scope_eq→eq any_host any_host h = refl
scope_eq→eq any_host (host k) h = cc
scope_eq→eq (host k) any_host h = cc
scope_eq→eq (host k) (host l) h = ap host (text_eq→eq k l h)

capability_eq→eq : (c d : Capability) → capability_eq c d ≡ true → c ≡ d
unfolding capability_eq
capability_eq→eq (app_data a) (app_data b) h = ap app_data (access_eq→eq a b h)
capability_eq→eq (documents a) (documents b) h = ap documents (access_eq→eq a b h)
capability_eq→eq (fetch s) (fetch t) h = ap fetch (scope_eq→eq s t h)
capability_eq→eq c d h = ground arith

In-append : (c x : Capability) (xs : List Capability) → In c (xs ++ x ∷ []) ↔ (In c xs ⊎ (x ≡ c))
In-append c x [] = ground arith
In-append c x (y ∷ xs) = ground (arith, In-append c x xs)

In-any : (x : Capability) (xs : List Capability) → any (λ d. capability_eq d x) xs ≡ true → In x xs
unfolding any
In-any x [] h = cc
In-any x (y ∷ xs) h = ground (arith, In-any x xs, capability_eq→eq y x)

add_import-In :
    (g : SessionGrants) (x c : Capability)
    → In c (add_import g x).imports ↔ (In c g.imports ⊎ (x ≡ c))
unfolding add_import
add_import-In g x c = elim (Bool-cases (any (λ d. capability_eq d x) g.imports)) [
  | inl e ↦ rw e (inl, already (In-any x g.imports e))
  | inr e ↦ rw e (In-append c x g.imports)
]
  where
    moved : (xs : List Capability) → In x xs → x ≡ c → In c xs
    moved [] here q = absurd here
    moved (y ∷ xs) (inl p) q = inl (p ∙ q)
    moved (y ∷ xs) (inr p) q = inr (moved xs p q)

    already : In x g.imports → (In c g.imports ⊎ (x ≡ c)) → In c g.imports
    already known (inl p) = p
    already known (inr p) = moved g.imports known p

pub ok-injective : {A E : Type 0} {a b : A} → ◌≡◌ {A = Result E A} (ok a) (ok b) → a ≡ b
ok-injective h = cc

none-ne-some : {k : HostDirs} → ◌≢◌ {A = Option HostDirs} none (some k)
none-ne-some h = cc

-- A capability that this host supports: canonical, and with the host directories that it needs.
abbrev pub Fits : Option HostDirs → Capability → Type 0
Fits h (app_data access) = (k : HostDirs) × (h ≡ some k)
Fits h (documents access) = (k : HostDirs) × (h ≡ some k)
Fits h gpu_compute = ⊥
Fits h gpu_render = ⊥
Fits h c = IsCanonical c

abbrev pub AllFit : Option HostDirs → List Capability → Type 0
AllFit h [] = Unit
AllFit h (x ∷ xs) = Fits h x × AllFit h xs

module _ (is_utf8 : Text → Bool) where
  grant_dir-imports :
      (g g' : SessionGrants) (host_path guest : Text) (access : Access)
      → grant_dir is_utf8 g host_path guest access ≡ ok g'
      → g'.imports ≡ g.imports
  unfolding grant_dir
  grant_dir-imports g g' host_path guest access h = ground (arith)

  grant_one-import :
      (app_id : Text) (h : Option HostDirs) (g : SessionGrants) (x : Capability)
      → IsImport x
      → grant_one is_utf8 app_id h g x ≡ ok (add_import g x)
  unfolding grant_one
  grant_one-import app_id h g (app_data a) imp = absurd imp
  grant_one-import app_id h g (documents a) imp = absurd imp
  grant_one-import app_id none g x imp = refl
  grant_one-import app_id (some k) g x imp = refl

  grant_documents-imports :
      (g g' : SessionGrants) (access : Access) (dir : Option Text)
      → grant_documents is_utf8 g access dir ≡ ok g'
      → g'.imports ≡ g.imports
  unfolding grant_documents
  grant_documents-imports g g' access none h = cc
  grant_documents-imports g g' access (some dir) h =
      grant_dir-imports g g' dir (codes "/xdg/documents") access h

  not_import : (c x : Capability) → IsImport c → (IsImport x → ⊥) → x ≢ c
  not_import c x imp not_x e = not_x (rw e imp)

  grant_one-In :
      (app_id : Text) (h : Option HostDirs) (g g' : SessionGrants) (x c : Capability)
      → IsImport c
      → Fits h x
      → grant_one is_utf8 app_id h g x ≡ ok g'
      → In c g'.imports ↔ (In c g.imports ⊎ (x ≡ c))
  unfolding grant_one
  grant_one-In app_id (some k) g g' (app_data a) c imp fits done =
      rw (grant_dir-imports g g' (app_data_dir k.data_home app_id) (codes "/data") a done)
        (ground (arith, not_import c (app_data a) imp (λ n. n)))
  grant_one-In app_id none g g' (app_data a) c imp fits done = absurd (none-ne-some fits.1)
  grant_one-In app_id (some k) g g' (documents a) c imp fits done =
      rw (grant_documents-imports g g' a k.documents_path done)
        (ground (arith, not_import c (documents a) imp (λ n. n)))
  grant_one-In app_id none g g' (documents a) c imp fits done = absurd (none-ne-some fits.1)
  grant_one-In app_id h g g' gpu_compute c imp fits done = absurd fits
  grant_one-In app_id h g g' gpu_render c imp fits done = absurd fits
  grant_one-In app_id none g g' x c imp fits done = rw⁻¹ (ok-injective done) (add_import-In g x c)
  grant_one-In app_id (some k) g g' x c imp fits done =
      rw⁻¹ (ok-injective done) (add_import-In g x c)

  pub grant_all-In :
      (app_id : Text) (h : Option HostDirs) (g g' : SessionGrants) (xs : List Capability)
      (c : Capability)
      → IsImport c
      → AllFit h xs
      → grant_all is_utf8 app_id h g xs ≡ ok g'
      → In c g'.imports ↔ (In c g.imports ⊎ In c xs)
  unfolding grant_all
  grant_all-In app_id h g g' [] c imp fits done = rw⁻¹ (ok-injective done) (ground arith)
  grant_all-In app_id h g g' (x ∷ xs) c imp fits done =
      let first =
        bind-eq-ok (grant_one is_utf8 app_id h g x) (λ t. grant_all is_utf8 app_id h t xs) done in
      ground (
        arith,
        grant_one-In app_id h g first.0 x c imp fits.0 first.1,
        grant_all-In app_id h first.0 g' xs c imp fits.1 first.2,
      )

  AllImports-append :
      (xs : List Capability) (x : Capability)
      → AllImports xs
      → IsImport x
      → IsCanonical x
      → AllImports (xs ++ x ∷ [])
  AllImports-append [] x all imp can = ((imp, can), tt)
  AllImports-append (y ∷ xs) x all imp can = (all.0, AllImports-append xs x all.1 imp can)

  add_import-AllImports :
      (g : SessionGrants) (x : Capability)
      → AllImports g.imports
      → IsImport x
      → IsCanonical x
      → AllImports (add_import g x).imports
  unfolding add_import
  add_import-AllImports g x all imp can =
      elim (Bool-cases (any (λ d. capability_eq d x) g.imports)) [
        | inl e ↦ rw e all
        | inr e ↦ rw e (AllImports-append g.imports x all imp can)
      ]

  grant_one-AllImports :
      (app_id : Text) (h : Option HostDirs) (g g' : SessionGrants) (x : Capability)
      → Fits h x
      → grant_one is_utf8 app_id h g x ≡ ok g'
      → AllImports g.imports
      → AllImports g'.imports
  unfolding grant_one
  grant_one-AllImports app_id (some k) g g' (app_data a) fits done all =
      rw (grant_dir-imports g g' (app_data_dir k.data_home app_id) (codes "/data") a done) all
  grant_one-AllImports app_id none g g' (app_data a) fits done all = absurd (none-ne-some fits.1)
  grant_one-AllImports app_id (some k) g g' (documents a) fits done all =
      rw (grant_documents-imports g g' a k.documents_path done) all
  grant_one-AllImports app_id none g g' (documents a) fits done all = absurd (none-ne-some fits.1)
  grant_one-AllImports app_id h g g' gpu_compute fits done all = absurd fits
  grant_one-AllImports app_id h g g' gpu_render fits done all = absurd fits
  grant_one-AllImports app_id none g g' x fits done all =
      rw⁻¹ (ok-injective done) (add_import-AllImports g x all tt fits)
  grant_one-AllImports app_id (some k) g g' x fits done all =
      rw⁻¹ (ok-injective done) (add_import-AllImports g x all tt fits)

  pub grant_all-AllImports :
      (app_id : Text) (h : Option HostDirs) (g g' : SessionGrants) (xs : List Capability)
      → AllFit h xs
      → grant_all is_utf8 app_id h g xs ≡ ok g'
      → AllImports g.imports
      → AllImports g'.imports
  unfolding grant_all
  grant_all-AllImports app_id h g g' [] fits done all = rw⁻¹ (ok-injective done) all
  grant_all-AllImports app_id h g g' (x ∷ xs) fits done all =
      let first =
        bind-eq-ok (grant_one is_utf8 app_id h g x) (λ t. grant_all is_utf8 app_id h t xs) done in
      grant_all-AllImports app_id h first.0 g' xs fits.1 first.2
        (grant_one-AllImports app_id h g first.0 x fits.0 first.1 all)
