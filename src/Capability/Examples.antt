-- ===== src/Capability/Examples.antt =====
-- The theorems about capabilities and hosts, and the module's own test cases.
use weft_os.Base.{◌≡◌, refl, false, [], ◌∷◌, map, codes, text_eq, ok, is_ok}
use weft_os.Capability.{fetch, host, from_str, to_string}
use weft_os.Capability.RoundTrip.{from_str-eq-ok}
use weft_os.Capability.Host.{is_host_name}

from_str-eq-ok_example :
    from_str (codes "net:fetch:api.example.org") ≡ ok (fetch (host (codes "api.example.org")))
unfolding to_string is_host_name
from_str-eq-ok_example =
    (from_str-eq-ok (codes "net:fetch:api.example.org") (fetch (host (codes "api.example.org")))).1
      (refl, refl)

-- `malformed_capabilities_are_unknown`
malformed :
    map
      (λ s. is_ok (from_str (codes s)))
      ("" ∷ "fs:write:app-data" ∷ "net:fetch" ∷ "net:fetch:" ∷ "net:fetch:Example.org"
        ∷ "net:fetch:example.org:443" ∷ "net:fetch:*.example.org" ∷ "net:fetch:-bad.example"
        ∷ "net:fetch:a..b" ∷ "net:fetch:0177.0.0.1" ∷ "net:fetch:999.1.1.1" ∷ "net:fetch:1.2.3"
        ∷ "net:fetch:example.123" ∷ "net:fetch:example.0x1" ∷ "sys:clipboard" ∷ [])
    ≡ false ∷ false ∷ false ∷ false ∷ false ∷ false ∷ false ∷ false ∷ false ∷ false ∷ false ∷ false
      ∷ false ∷ false ∷ false ∷ []
unfolding from_str text_eq is_host_name
malformed = refl
