-- ===== src/RuntimeGrants/Fetch.antt =====
-- What a list of capabilities, granted one by one, lets the component do.
use weft_os.Base.{
  ◌≡◌, refl, ap, ◌↔◌, ◌⊎◌, Bool, true, false, ◌||◌, List, [], ◌∷◌, ◌++◌, Text, codes, text_eq_iff,
  any, is_empty, split, arith, ok, is_ok, map,
}
use weft_os.Capability.{
  FetchScope, any_host, host, Capability, app_data, documents, fetch, notifications, clipboard_read,
  clipboard_write, gpu_compute, gpu_render, IsCanonical, to_string,
}
use weft_os.Capability.RoundTrip.{from_str-to_string}
use weft_os.Capability.Host.{is_ipv4}
use weft_os.RuntimeGrants.{
  Grants, no_grants, add_capability, parsed, add, add_all, granted, may_notify, may_read_clipboard,
  may_write_clipboard, declared, names, covers, fetch_host,
}

-- Membership, with its place.
abbrev pub In : Capability → List Capability → Type 0
In a [] = ⊥
In a (x ∷ xs) = (x ≡ a) ⊎ In a xs

-- The capabilities that are passed by `--grant`.
abbrev pub IsImport : Capability → Type 0
IsImport (app_data a) = ⊥
IsImport (documents a) = ⊥
IsImport gpu_compute = ⊥
IsImport gpu_render = ⊥
IsImport _ = Unit

abbrev pub AllImports : List Capability → Type 0
AllImports [] = Unit
AllImports (c ∷ cs) = (IsImport c × IsCanonical c) × AllImports cs

abbrev pub with_capability : Grants → Capability → Grants
with_capability g (fetch scope) = record g { fetch_scopes = g.fetch_scopes ++ scope ∷ [] }
with_capability g notifications = record g { notify = true }
with_capability g clipboard_read = record g { read_clipboard = true }
with_capability g clipboard_write = record g { write_clipboard = true }
with_capability g other = g

pub collected : Grants → List Capability → Grants
collected g [] = g
collected g (c ∷ cs) = collected (with_capability g c) cs

add_capability-with :
    (g : Grants) (c : Capability) → IsImport c → add_capability g c ≡ ok (with_capability g c)
unfolding add_capability
add_capability-with g (app_data a) h = absurd h
add_capability-with g (documents a) h = absurd h
add_capability-with g (fetch s) h = refl
add_capability-with g notifications h = refl
add_capability-with g clipboard_read h = refl
add_capability-with g clipboard_write h = refl
add_capability-with g gpu_compute h = absurd h
add_capability-with g gpu_render h = absurd h

pub add-to_string :
    (g : Grants) (c : Capability)
    → IsImport c
    → IsCanonical c
    → add g (to_string c) ≡ ok (with_capability g c)
unfolding add
add-to_string g c h v = rw (from_str-to_string c v) (unfold parsed in add_capability-with g c h)

pub add_all-to_string :
    (g : Grants) (cs : List Capability)
    → AllImports cs
    → add_all g (map to_string cs) ≡ ok (collected g cs)
unfolding add_all collected
add_all-to_string g [] h = refl
add_all-to_string g (c ∷ cs) h =
    rw (add-to_string g c h.0.0 h.0.1) (add_all-to_string (with_capability g c) cs h.1)

notify_iff :
    (g : Grants) (cs : List Capability)
    → ((collected g cs).notify ≡ true) ↔ ((g.notify ≡ true) ⊎ In notifications cs)
unfolding collected
notify_iff g [] = ground arith
notify_iff g (c ∷ cs) = ground (arith, notify_iff (with_capability g c) cs)

read_clipboard_iff :
    (g : Grants) (cs : List Capability)
    → ((collected g cs).read_clipboard ≡ true) ↔ ((g.read_clipboard ≡ true) ⊎ In clipboard_read cs)
unfolding collected
read_clipboard_iff g [] = ground arith
read_clipboard_iff g (c ∷ cs) = ground (arith, read_clipboard_iff (with_capability g c) cs)

write_clipboard_iff :
    (g : Grants) (cs : List Capability)
    → ((collected g cs).write_clipboard ≡ true)
      ↔ ((g.write_clipboard ≡ true) ⊎ In clipboard_write cs)
unfolding collected
write_clipboard_iff g [] = ground arith
write_clipboard_iff g (c ∷ cs) = ground (arith, write_clipboard_iff (with_capability g c) cs)

any-snoc :
    (p : FetchScope → Bool) (xs : List FetchScope) (s : FetchScope)
    → any p (xs ++ s ∷ []) ≡ (any p xs || p s)
unfolding any
any-snoc p [] s = ground arith
any-snoc p (x ∷ xs) s = ground (arith, any-snoc p xs s)

covers_iff :
    (h : Text) (s : FetchScope)
    → (covers h s ≡ true) ↔ ((fetch s ≡ fetch any_host) ⊎ (fetch s ≡ fetch (host h)))
covers_iff h any_host = ground arith
covers_iff h (host h') =
    ground (arith, text_eq_iff h' h, λ (e : h' ≡ h). ap (λ x. fetch (host x)) e)

covered_iff :
    (h : Text) (g : Grants) (cs : List Capability)
    → (any (covers h) (collected g cs).fetch_scopes ≡ true)
      ↔ ((any (covers h) g.fetch_scopes ≡ true) ⊎ (In (fetch any_host) cs ⊎ In (fetch (host h)) cs))
unfolding collected
covered_iff h g [] = ground arith
covered_iff h g (fetch s ∷ cs) = ground (
  arith,
  covered_iff h (with_capability g (fetch s)) cs,
  any-snoc (covers h) g.fetch_scopes s,
  covers_iff h s,
)
covered_iff h g (c ∷ cs) = ground (arith, covered_iff h (with_capability g c) cs)

any-covers-empty :
    (h : Text) (ss : List FetchScope) → is_empty ss ≡ true → any (covers h) ss ≡ false
unfolding any
any-covers-empty h [] e = refl
any-covers-empty h (s ∷ ss) e = ground arith

any-names-covers :
    (h : Text) (ss : List FetchScope) → any (names h) ss ≡ true → any (covers h) ss ≡ true
unfolding any
any-names-covers h [] e = cc
any-names-covers h (any_host ∷ ss) e = ground arith
any-names-covers h (host h' ∷ ss) e = ground (arith, any-names-covers h ss)

fetch_host-ok : (g : Grants) (h : Text) → is_ok (fetch_host g h) ≡ any (covers h) g.fetch_scopes
unfolding fetch_host
fetch_host-ok g h =
    ground (arith, any-covers-empty h g.fetch_scopes, any-names-covers h g.fetch_scopes)

names_iff : (h : Text) (s : FetchScope) → (names h s ≡ true) ↔ (fetch s ≡ fetch (host h))
names_iff h any_host = ground arith
names_iff h (host h') = ground (arith, text_eq_iff h' h, λ (e : h' ≡ h). ap (λ x. fetch (host x)) e)

named_iff :
    (h : Text) (g : Grants) (cs : List Capability)
    → (any (names h) (collected g cs).fetch_scopes ≡ true)
      ↔ ((any (names h) g.fetch_scopes ≡ true) ⊎ In (fetch (host h)) cs)
unfolding collected
named_iff h g [] = ground arith
named_iff h g (fetch s ∷ cs) = ground (
  arith,
  named_iff h (with_capability g (fetch s)) cs,
  any-snoc (names h) g.fetch_scopes s,
  names_iff h s,
)
named_iff h g (c ∷ cs) = ground (arith, named_iff h (with_capability g c) cs)

any-names-empty : (h : Text) (ss : List FetchScope) → is_empty ss ≡ true → any (names h) ss ≡ false
unfolding any
any-names-empty h [] e = refl
any-names-empty h (s ∷ ss) e = ground arith

fetch_host-declared :
    (g : Grants) (h : Text)
    → (fetch_host g h ≡ ok declared)
      ↔ ((is_ipv4 (split b'.' h) ≡ true) × (any (names h) g.fetch_scopes ≡ true))
unfolding fetch_host
fetch_host-declared g h = ground (arith, any-names-empty h g.fetch_scopes)

granted-ok : (b : Bool) (t : Text) → is_ok (granted b t) ≡ b
unfolding granted
granted-ok true t = refl
granted-ok false t = refl

-- What the grants permit is what the capabilities say.
abbrev pub Agrees : Grants → List Capability → Text → Type 0
Agrees g cs h =
    ((is_ok (may_notify g) ≡ true) ↔ In notifications cs)
    × ((is_ok (may_read_clipboard g) ≡ true) ↔ In clipboard_read cs)
    × ((is_ok (may_write_clipboard g) ≡ true) ↔ In clipboard_write cs)
    × ((is_ok (fetch_host g h) ≡ true) ↔ (In (fetch any_host) cs ⊎ In (fetch (host h)) cs))
    × ((fetch_host g h ≡ ok declared) ↔ ((is_ipv4 (split b'.' h) ≡ true) × In (fetch (host h)) cs))

-- For capabilities that are passed by `--grant` and print canonically, the runtime accepts their
-- printed forms, and the resulting grants permit notifications, clipboard reads and clipboard
-- writes exactly when the capability is in the list. A fetch of a host is permitted exactly when
-- the list has `net:fetch:*` or that host, and reaches a non-public address exactly when the host
-- is an IPv4 address that the list names.
pub add_all-Agrees :
    (cs : List Capability) (h : Text)
    → AllImports cs
    → (g : Grants) × (add_all no_grants (map to_string cs) ≡ ok g) × Agrees g cs h
unfolding may_notify may_read_clipboard may_write_clipboard any
add_all-Agrees cs h imports =
    let g = collected no_grants cs in
    (
      g,
      add_all-to_string no_grants cs imports,
      (
        ground (arith, granted-ok g.notify (codes "sys:notifications"), notify_iff no_grants cs),
        ground (
          arith,
          granted-ok g.read_clipboard (codes "sys:clipboard:read"),
          read_clipboard_iff no_grants cs,
        ),
        ground (
          arith,
          granted-ok g.write_clipboard (codes "sys:clipboard:write"),
          write_clipboard_iff no_grants cs,
        ),
        ground (arith, fetch_host-ok g h, covered_iff h no_grants cs),
        ground (arith, fetch_host-declared g h, named_iff h no_grants cs),
      ),
    )
