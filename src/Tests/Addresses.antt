-- ===== src/Tests/Addresses.antt =====
-- The theorems on addresses at concrete inputs.
use multipath_proxy.Prelude.{pos, ◌≡◌, refl, [], ◌∷◌, ◌++◌, arith}
use multipath_proxy.Outcome.{done}
use multipath_proxy.Net.SockAddr.{SockAddrIn, port}
use multipath_proxy.Net.SockAddr.Parse.{Parser, parsed, colon, from_endpoint, from_endpoint_lem}

-- A library that reads every text as the same address and port.
abbrev constant : Parser
constant = record { inet_pton = λ s. parsed 0x0100007F; stoi = λ s. done (pos 80) }

-- "a" in place of an address, "b" in place of a port.
from_endpoint_lem_example :
    (a : SockAddrIn) × (from_endpoint constant ((97 ∷ []) ++ (colon ∷ (98 ∷ []))) ≡ done a)
    × (a.sin_addr ≡ 0x0100007F)
    × (port a ≡ 80)
from_endpoint_lem_example =
    from_endpoint_lem constant (97 ∷ []) 0x0100007F 80 (omega arith, tt) refl (omega arith)
      (98 ∷ []) refl
