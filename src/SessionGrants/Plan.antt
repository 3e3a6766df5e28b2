-- ===== src/SessionGrants/Plan.antt =====
-- From the declared capabilities to what the runtime will permit.
use weft_os.Base.{
  ◌≡◌, ◌≢◌, refl, ap, ◌↔◌, inl, inr, Bool, false, Bool-cases, List, [], ◌∷◌, Option, none, some,
  Text, any, arith, Result, ok, err, ◌>>=◌, bind-eq-ok, map,
}
use weft_os.Capability.{
  any_host, host, Capability, app_data, documents, fetch, notifications, clipboard_read,
  clipboard_write, gpu_compute, gpu_render, UnknownCapability, unknown_capability, IsCanonical,
  from_str, to_string,
}
use weft_os.Capability.RoundTrip.{from_str-IsCanonical}
use weft_os.RuntimeGrants.{Grants, no_grants, add_all}
use weft_os.RuntimeGrants.Fetch.{In, IsImport, Agrees, add_all-Agrees}
use weft_os.SessionGrants.{
  SessionGrants, nothing_granted, Refusal, HostDirs, grant_all, supported, validate, needs_dir,
  host_for, plan,
}
use weft_os.SessionGrants.Imports.{AllFit, grant_all-In, grant_all-AllImports, ok-injective}

-- The capabilities that `validate` can return: of this host, and canonical.
IsSupported : Capability → Type 0
IsSupported gpu_compute = ⊥
IsSupported gpu_render = ⊥
IsSupported c = IsCanonical c

AllSupported : List Capability → Type 0
AllSupported [] = Unit
AllSupported (c ∷ cs) = IsSupported c × AllSupported cs

supported-eq-ok :
    (r : Result UnknownCapability Capability) (c : Capability)
    → supported r ≡ ok c
    → (r ≡ ok c) × ((IsCanonical c → IsSupported c))
unfolding supported IsSupported
supported-eq-ok (err (unknown_capability s)) c h = cc
supported-eq-ok (ok gpu_compute) c h = cc
supported-eq-ok (ok gpu_render) c h = cc
supported-eq-ok (ok x) c h = rw⁻¹ (ok-injective h) (refl, λ v. v)

validate-AllSupported :
    (declared : List Text) (cs : List Capability) → validate declared ≡ ok cs → AllSupported cs
unfolding validate AllSupported
validate-AllSupported [] cs h = rw⁻¹ (ok-injective h) tt
validate-AllSupported (text ∷ declared) cs h =
    let first =
      bind-eq-ok (supported (from_str text)) (λ c. validate declared >>= λ ds. ok (c ∷ ds)) h in
    let rest = bind-eq-ok (validate declared) (λ ds. ok (first.0 ∷ ds)) first.2 in
    let parsed = supported-eq-ok (from_str text) first.0 first.1 in
    rw⁻¹ (ok-injective rest.2) (
      parsed.1 (from_str-IsCanonical text first.0 parsed.0).1,
      validate-AllSupported declared rest.0 rest.1,
    )

err-ne-ok : {A E : Type 0} {e : E} {a : A} → ◌≢◌ {A = Result E A} (err e) (ok a)
err-ne-ok h = cc

AllFit-host : (cs : List Capability) (k : HostDirs) → AllSupported cs → AllFit (some k) cs
unfolding AllSupported IsSupported
AllFit-host [] k h = tt
AllFit-host (app_data a ∷ cs) k h = ((k, refl), AllFit-host cs k h.1)
AllFit-host (documents a ∷ cs) k h = ((k, refl), AllFit-host cs k h.1)
AllFit-host (gpu_compute ∷ cs) k h = absurd h.0
AllFit-host (gpu_render ∷ cs) k h = absurd h.0
AllFit-host (c ∷ cs) k h = (h.0, AllFit-host cs k h.1)

AllFit-none : (cs : List Capability) → AllSupported cs → any needs_dir cs ≡ false → AllFit none cs
unfolding AllSupported IsSupported any needs_dir
AllFit-none [] h e = tt
AllFit-none (app_data a ∷ cs) h e = ground arith
AllFit-none (documents a ∷ cs) h e = ground arith
AllFit-none (gpu_compute ∷ cs) h e = absurd h.0
AllFit-none (gpu_render ∷ cs) h e = absurd h.0
AllFit-none (c ∷ cs) h e = (h.0, AllFit-none cs h.1 e)

host_for-AllFit :
    (cs : List Capability) (host_dirs : Result Refusal HostDirs) (h : Option HostDirs)
    → AllSupported cs
    → host_for cs host_dirs ≡ ok h
    → AllFit h cs
unfolding host_for
host_for-AllFit cs (ok k) h sup done = elim (Bool-cases (any needs_dir cs)) [
  | inl e ↦ rw⁻¹ (ok-injective (rw e at done)) (AllFit-host cs k sup)
  | inr e ↦ rw⁻¹ (ok-injective (rw e at done)) (AllFit-none cs sup e)
]
host_for-AllFit cs (err r) h sup done = elim (Bool-cases (any needs_dir cs)) [
  | inl e ↦ absurd (err-ne-ok (rw e at done))
  | inr e ↦ rw⁻¹ (ok-injective (rw e at done)) (AllFit-none cs sup e)
]

Agrees-In :
    (g : Grants) (xs ys : List Capability) (target : Text)
    → ((c : Capability) → IsImport c → In c xs ↔ In c ys)
    → Agrees g xs target
    → Agrees g ys target
Agrees-In g xs ys target same agrees = ground (
  arith,
  same notifications tt,
  same clipboard_read tt,
  same clipboard_write tt,
  same (fetch any_host) tt,
  same (fetch (host target)) tt,
)

granted-Agrees :
    (is_utf8 : Text → Bool) (app_id : Text) (h : Option HostDirs) (cs : List Capability)
    (grants : SessionGrants) (target : Text)
    → AllFit h cs
    → grant_all is_utf8 app_id h nothing_granted cs ≡ ok grants
    → (g : Grants) × (add_all no_grants (map to_string grants.imports) ≡ ok g) × Agrees g cs target
granted-Agrees is_utf8 app_id h cs grants target fits done =
    let imports = grant_all-AllImports is_utf8 app_id h nothing_granted grants cs fits done tt in
    let accepted = add_all-Agrees grants.imports target imports in
    (
      accepted.0,
      accepted.1,
      Agrees-In accepted.0 grants.imports cs target
          (λ c imp.
            ground (arith, grant_all-In is_utf8 app_id h nothing_granted grants cs c imp fits done))
          accepted.2,
    )

-- When a launch is planned, the declared capabilities have been parsed, the runtime accepts the
-- `--grant` arguments, and what it then permits is what the declared capabilities say:
-- notifications and the clipboard exactly when they are declared, a fetch of a host exactly when
-- `net:fetch:*` or that host is declared, and a non-public address exactly when the host is an
-- IPv4 address that is declared.
pub plan-Agrees :
    (is_utf8 : Text → Bool) (app_id : Text) (declared : List Text)
    (host_dirs : Result Refusal HostDirs) (grants : SessionGrants) (h : Option HostDirs)
    (target : Text)
    → plan is_utf8 app_id declared host_dirs ≡ ok (grants, h)
    → (cs : List Capability) × (validate declared ≡ ok cs)
      × (g : Grants) × (add_all no_grants (map to_string grants.imports) ≡ ok g)
      × Agrees g cs target
unfolding plan
plan-Agrees is_utf8 app_id declared host_dirs grants h target done =
    let valid =
      bind-eq-ok (validate declared)
        (λ cs. host_for cs host_dirs >>= λ k.
          grant_all is_utf8 app_id k nothing_granted cs >>= λ g. ok (g, k))
        done in
    let cs = valid.0 in
    let hosted =
      bind-eq-ok (host_for cs host_dirs)
        (λ k. grant_all is_utf8 app_id k nothing_granted cs >>= λ g. ok (g, k)) valid.2 in
    let all =
      bind-eq-ok (grant_all is_utf8 app_id hosted.0 nothing_granted cs) (λ g. ok (g, hosted.0))
        hosted.2 in
    let fits =
      host_for-AllFit cs host_dirs hosted.0 (validate-AllSupported declared cs valid.1) hosted.1 in
    let same : all.0 ≡ grants = ap (λ p. p.0) (ok-injective all.2) in
    let agreed = granted-Agrees is_utf8 app_id hosted.0 cs grants target fits (rw⁻¹ same all.1) in
    (cs, valid.1, agreed.0, agreed.1, agreed.2)
