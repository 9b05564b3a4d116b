-- ===== src/Net/Flow/Life.antt =====
-- src/net/Flow.cpp, ~Flow, which runs in a thread of its own when all loopers are stopped.
use multipath_proxy.Prelude.{
  ℕ, ◌≡◌, refl, sym, ap, ◌∙◌, true, false, none, some, ◌==◌, if◌then◌else◌, arith,
}
use multipath_proxy.Outcome.{Outcome, done, throws, fault, terminated, done-injective, ◌>>◌}
use multipath_proxy.Worker.Looper
use multipath_proxy.Worker.Looper.{Looper}
use multipath_proxy.Collections.FlowMap.{FlowMap, find, erase, pair, same_pair}
use multipath_proxy.Collections.FlowMap.Laws.{Unique, find-erase}
use multipath_proxy.Net.SockAddr.{SockAddrIn}
use multipath_proxy.Net.Socket.{Kernel}
use multipath_proxy.Net.Connection.{Connection, Host, close, destroy}
use multipath_proxy.Net.Connection.Lifetime.{Descriptors, is_open, known}
use multipath_proxy.Net.Connection.Reuse.{destroyed, closed}

-- The parts of a flow that its destructor uses.
pub record FlowParts : Type 0 where
  pub source : SockAddrIn
  pub destination : SockAddrIn
  pub connection : Connection
  pub recv_looper : Looper
  pub send_looper : Looper
  pub bond_looper : Looper

-- The destructors of the members, the last one first.
abbrev pub join_all : FlowParts → Outcome (Unit {0})
join_all p =
    Looper.destroy p.bond_looper >> (Looper.destroy p.send_looper >> Looper.destroy p.recv_looper)

-- A looper that was started and stopped.
abbrev pub IsStopped : Looper → Type 0
IsStopped l = (l.has_thread ≡ true) × (l.running ≡ false)

join-IsStopped : (l : Looper) → IsStopped l → Looper.destroy l ≡ done tt
unfolding Looper.destroy
join-IsStopped l (thread, quiet) = ground (arith, thread, quiet)

module _ {SA : Type 0} (k : Kernel SA) (F : Type 0) where
  -- The system with the connection manager, and the map of flows.
  pub record FlowHost : Type 0 where
    pub host : Host k
    pub flows : FlowMap F

  -- Behind the lookup: an exception would leave a destructor.
  abbrev pub finish_flow :
      FlowParts → Outcome (FlowMap F) → Host k → FlowMap F → Outcome (Unit {0}) × FlowHost
  finish_flow p (done m') h m =
      (join_all p, record { host = destroy k p.connection (close k p.connection h); flows = m' })
  finish_flow p (throws e) h m = (fault terminated, record { host = h; flows = m })
  finish_flow p (fault x) h m = (fault x, record { host = h; flows = m })

  -- ~Flow
  unfoldable pub destroy_flow : FlowParts → FlowHost → Outcome (Unit {0}) × FlowHost
  unfolding Looper.destroy
  destroy_flow p s = finish_flow p (erase p.source p.destination s.flows) s.host s.flows

  module _ (table : Descriptors k) where
    -- The flow, its descriptor and its registration are gone, and nothing else is.
    pub record IsGone (p : FlowParts) (s : FlowHost) (r : Outcome (Unit {0}) × FlowHost)
        : Type 0 where
      pub ends : r.0 ≡ done tt
      pub opens :
          (g : ℕ)
          → is_open k table r.1.host g
            ≡ (if p.connection.fd == g then false else is_open k table s.host g)
      pub knows :
          (g : ℕ)
          → known k table r.1.host g
            ≡ (if p.connection.fd == g then none else known k table s.host g)
      pub finds :
          (a b : SockAddrIn)
          → find a b r.1.flows ≡ (
              if same_pair (pair a b) (pair p.source p.destination) then none else find a b s.flows)

    -- The destructor of a flow whose loopers were started and have stopped, and which is in a map
    -- without a double key, ends, takes its addresses out of the map, closes the descriptor of its
    -- connection and takes it out of the connection manager; every other flow, descriptor and
    -- registration stays.
    pub destroy_flow-IsGone :
        (p : FlowParts) (s : FlowHost) (f : F)
        → Unique s.flows.entries
        → find p.source p.destination s.flows ≡ some f
        → IsStopped p.recv_looper
        → IsStopped p.send_looper
        → IsStopped p.bond_looper
        → IsGone p s (destroy_flow p s)
    unfolding destroy_flow
    destroy_flow-IsGone p s f unique there recv send bond =
        let (m', erased, _, _, _) =
          find-erase p.source p.destination p.source p.destination f s.flows unique there in
        rw erased (record {
          ends =
              rw
                (
                  join-IsStopped p.bond_looper bond,
                  join-IsStopped p.send_looper send,
                  join-IsStopped p.recv_looper recv,
                )
                refl;
          opens = λ g.
              let (now, _) = destroyed k table p.connection (close k p.connection s.host) g in
              let (before, _) = closed k table p.connection s.host g in
              now ∙ ground (arith, before);
          knows = λ g.
              let (_, now) = destroyed k table p.connection (close k p.connection s.host) g in
              let (_, before) = closed k table p.connection s.host g in
              now ∙ ground (arith, before);
          finds = λ a b.
              let (m'', again, found, _, _) =
                find-erase p.source p.destination a b f s.flows unique there in
              ap (λ x. find a b x) (done-injective (sym erased ∙ again)) ∙ found;
        })
