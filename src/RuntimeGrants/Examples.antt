-- ===== src/RuntimeGrants/Examples.antt =====
-- Grants for an address on the local network and for notifications, and a router's address.
use weft_os.Base.{
  ◌≡◌, refl, arith, Bool, true, false, List, [], ◌∷◌, Text, codes, Result, ok, err, is_ok, map,
}
use weft_os.Capability.{host, Capability, fetch, notifications, to_string}
use weft_os.RuntimeGrants.{Grants, no_grants, add_all, bad_paths, parse_preopen}
use weft_os.RuntimeGrants.Addresses.{Ipv4Addr, is_public_v4, is_public_v6}
use weft_os.RuntimeGrants.Addresses.Blocks.{is_public_v4-special_blocks}
use weft_os.RuntimeGrants.Addresses.Embedded.{Form, carry, is_public_v6-carry}
use weft_os.RuntimeGrants.Fetch.{Agrees, add_all-Agrees}

abbrev two : List Capability
two = fetch (host (codes "10.0.0.7")) ∷ notifications ∷ []

add_all-Agrees_example :
    (g : Grants) × (add_all no_grants (map to_string two) ≡ ok g) × Agrees g two (codes "10.0.0.7")
unfolding weft_os.Capability.Host.is_host_name
add_all-Agrees_example = add_all-Agrees two (codes "10.0.0.7") ((tt, refl), ((tt, tt), tt))

relative_guest : parse_preopen (codes "/h::data::ro") ≡ err bad_paths
unfolding parse_preopen weft_os.Base.text_eq weft_os.Base.starts_with
relative_guest = refl

abbrev router : Ipv4Addr
router = record { a = 192; b = 168; c = 0; d = 1 }

is_public_v4-special_blocks_example : is_public_v4 router ≡ false
unfolding weft_os.Base.any
is_public_v4-special_blocks_example =
    is_public_v4-special_blocks router (omega arith, omega arith, omega arith, omega arith)

is_public_v6-carry_example : is_public_v6 (carry Form.mapped router) ≡ is_public_v4 router
is_public_v6-carry_example =
    is_public_v6-carry Form.mapped router (omega arith, omega arith, omega arith, omega arith)
