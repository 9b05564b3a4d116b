-- ===== src/Net/Bond/Dispatch.antt =====
-- What becomes of a packet that was read from the bond.
use mathlib.Core.Path.{ap₂}
use multipath_proxy.Prelude.{◌≤◌, ◌≡◌, ◌≢◌, refl, ◌∙◌, none, some, arith, length}
use multipath_proxy.Exception.{Exception}
use multipath_proxy.Outcome.{Outcome, done, throws}
use multipath_proxy.Packet.FlowHeader
use multipath_proxy.Packet.FlowHeader.{set_size}
use multipath_proxy.Packet.Layout.{flow_header_size}
use multipath_proxy.Packet.FlowPacket.{FlowPacket, header, payload, size}
use multipath_proxy.Packet.FlowPacket.Resize.{store_size_lem}
use multipath_proxy.Net.SockAddr.{SockAddrIn}
use multipath_proxy.Collections.FlowMap.{FlowMap, find, insert, pair}
use multipath_proxy.Collections.FlowMap.Laws.{find-insert, same_pair_refl}
use multipath_proxy.Net.Bond.{to_flow, refused, connect_flow, dispatch}

module _ {F : Type 0} (connect : SockAddrIn → Outcome F) where
  pub dispatch_found :
      (p : FlowPacket) (m : FlowMap F) (f : F)
      → find (FlowHeader.source (header p)) (FlowHeader.destination (header p)) m ≡ some f
      → dispatch connect p m ≡ done (to_flow f p m)
  unfolding dispatch
  dispatch_found p m f e = rw (e, dispatch) refl

  dispatch_new :
      (p : FlowPacket) (m : FlowMap F)
      → find (FlowHeader.source (header p)) (FlowHeader.destination (header p)) m ≡ none
      → size p ≢ 0
      → dispatch connect p m ≡ connect_flow (connect (FlowHeader.destination (header p))) p m
  unfolding dispatch
  dispatch_new p m e n = rw (e, dispatch) (ground (arith, n))

  pub find_inserted :
      (s d : SockAddrIn) (f : F) (m : FlowMap F)
      → find s d m ≡ none
      → find s d (insert s d f m) ≡ some f
  find_inserted s d f m e = find-insert s d s d f m ∙ rw (same_pair_refl (pair s d), e) refl

  -- A packet with data for addresses without a flow makes a flow, where the connection to the
  -- endpoint is made, and goes to it; in the map that results, every packet with the same two
  -- addresses goes to that flow.
  pub dispatch_same_flow :
      (p q : FlowPacket) (m : FlowMap F) (f : F)
      → find (FlowHeader.source (header p)) (FlowHeader.destination (header p)) m ≡ none
      → size p ≢ 0
      → connect (FlowHeader.destination (header p)) ≡ done f
      → FlowHeader.source (header q) ≡ FlowHeader.source (header p)
      → FlowHeader.destination (header q) ≡ FlowHeader.destination (header p)
      → (m' : FlowMap F) × (dispatch connect p m ≡ done (to_flow f p m'))
        × (dispatch connect q m' ≡ done (to_flow f q m'))
  unfolding connect_flow
  dispatch_same_flow p q m f missing data_ made s d =
      let m' : FlowMap F =
        insert (FlowHeader.source (header p)) (FlowHeader.destination (header p)) f m in
      let there : find (FlowHeader.source (header p)) (FlowHeader.destination (header p)) m'
          ≡ some f =
        find_inserted (FlowHeader.source (header p)) (FlowHeader.destination (header p)) f m
          missing in
      (
        m',
        dispatch_new p m missing data_ ∙ rw made refl,
        dispatch_found q m' f (ap₂ (λ x y. find x y m') s d ∙ there),
      )

  -- Where the endpoint cannot be connected, a packet with data that holds a header goes back with
  -- the size field 0, but with its payload and with the size of its buffer as they were.
  pub dispatch_refused :
      (p : FlowPacket) (m : FlowMap F) (e : Exception)
      → find (FlowHeader.source (header p)) (FlowHeader.destination (header p)) m ≡ none
      → size p ≢ 0
      → flow_header_size ≤ length p.data_
      → connect (FlowHeader.destination (header p)) ≡ throws e
      → (q : FlowPacket) × (dispatch connect p m ≡ done (refused q m))
        × (header q ≡ set_size (header p) 0)
        × (payload q ≡ payload p)
        × (q.size ≡ p.size)
  unfolding connect_flow
  dispatch_refused p m e missing data_ long failed =
      let (q, stored, hq, pq, sq, lq) = store_size_lem 0 p (omega arith) long in
      (q, dispatch_new p m missing data_ ∙ rw (failed, stored) refl, hq, pq, sq)
