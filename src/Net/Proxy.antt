-- ===== src/Net/Proxy.antt =====
-- src/net/Proxy.cpp, Accept: a flow for each connection that the listener accepts. The listener, the
-- socket's own address and the making of the flow are arguments.
pub mod Accepted
pub mod Life
use multipath_proxy.Outcome.{Outcome, done, throws, fault}
use multipath_proxy.Net.SockAddr.{SockAddrIn}
use multipath_proxy.Collections.FlowMap.{FlowMap, insert}

module _ {C F : Type 0} (get_sock_name : C → Outcome SockAddrIn)
    (make_flow : SockAddrIn → SockAddrIn → C → F) where
  -- Behind the listener: an exception is logged, and the map is as it was.
  unfoldable pub add_flow : SockAddrIn → C → Outcome SockAddrIn → FlowMap F → Outcome (FlowMap F)
  add_flow source c (done destination) m =
      done (insert source destination (make_flow source destination c) m)
  add_flow source c (throws e) m = done m
  add_flow source c (fault x) m = fault x

  -- Accept, with what the listener gives.
  unfoldable pub accept : Outcome (SockAddrIn × C) → FlowMap F → Outcome (FlowMap F)
  accept (done (source, c)) m = add_flow source c (get_sock_name c) m
  accept (throws e) m = done m
  accept (fault x) m = fault x
