-- ===== src/Net/Proxy/Accepted.antt =====
-- A connection that the proxy accepts, and the packets that come back for it over the bond.
use mathlib.Core.Path.{ap₂}
use multipath_proxy.Prelude.{◌≡◌, refl, ◌∙◌, none}
use multipath_proxy.Outcome.{Outcome, done}
use multipath_proxy.Packet.FlowHeader
use multipath_proxy.Packet.FlowPacket.{FlowPacket, header}
use multipath_proxy.Net.SockAddr.{SockAddrIn}
use multipath_proxy.Collections.FlowMap.{FlowMap, find, insert}
use multipath_proxy.Net.Bond.{to_flow, dispatch}
use multipath_proxy.Net.Bond.Dispatch.{dispatch_found, find_inserted}
use multipath_proxy.Net.Proxy.{accept, add_flow}

module _ {C F : Type 0} (get_sock_name : C → Outcome SockAddrIn)
    (make_flow : SockAddrIn → SockAddrIn → C → F) (connect : SockAddrIn → Outcome F) where
  accept_adds :
      (s d : SockAddrIn) (c : C) (m : FlowMap F)
      → get_sock_name c ≡ done d
      → accept get_sock_name make_flow (done (s, c)) m ≡ done (insert s d (make_flow s d c) m)
  unfolding accept add_flow
  accept_adds s d c m e = rw e refl

  -- Where the listener gives a connection whose own address is known and whose two addresses have
  -- no flow, Accept makes a flow for it, and every packet with these addresses that the bond reads
  -- goes to that flow.
  pub accept-dispatch :
      (s d : SockAddrIn) (c : C) (m : FlowMap F) (q : FlowPacket)
      → get_sock_name c ≡ done d
      → find s d m ≡ none
      → FlowHeader.source (header q) ≡ s
      → FlowHeader.destination (header q) ≡ d
      → (m' : FlowMap F) × (accept get_sock_name make_flow (done (s, c)) m ≡ done m')
        × (dispatch connect q m' ≡ done (to_flow (make_flow s d c) q m'))
  accept-dispatch s d c m q e missing from to =
      let m' : FlowMap F = insert s d (make_flow s d c) m in
      (
        m',
        accept_adds s d c m e,
        dispatch_found connect q m' (make_flow s d c) (
            ap₂ (λ x y. find x y m') from to
            ∙ find_inserted connect s d (make_flow s d c) m missing),
      )
