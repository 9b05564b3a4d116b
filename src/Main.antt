-- ===== src/Main.antt =====
-- src/main.cpp: the connections of the two ways, the bond and the proxy.
pub mod Dial
pub mod Cleanup
use multipath_proxy.Prelude.{ℕ, Bool, true, false, Option, none, some, if◌then◌else◌}
use multipath_proxy.Outcome.{Outcome, done, throws, fault, terminated}
use multipath_proxy.Action.{Action, pure, ◌>>=◌, ◌>>◌, go_on}
use multipath_proxy.Text.{Text}
use multipath_proxy.Args.{Args, Mode, local, remote}
use multipath_proxy.Net.SockAddr.{SockAddrIn, ip, port, zero_addr}
use multipath_proxy.Net.SockAddr.Parse.{Parser, from_endpoint, from_ip_port}
use multipath_proxy.Net.Socket.{Kernel, set_sock_opt}
use multipath_proxy.Net.Connection.{Connection, Host, lift_world, destroy}
use multipath_proxy.Net.Tcp.Ipv4.{make_connection, make_listener, accept}

-- IPPROTO_TCP and TCP_NODELAY
abbrev pub ipproto_tcp : ℕ
ipproto_tcp = 6

abbrev pub tcp_nodelay : ℕ
tcp_nodelay = 1

module _ (k : Kernel SockAddrIn) where
  -- The host, and the pointers `terConnection` and `satConnection`.
  pub record Locals : Type 0 where
    pub host : Host k
    pub ter_connection : Option Connection
    pub sat_connection : Option Connection

  abbrev pub lift_host : {A : Type 0} → Locals → Outcome A × Host k → Outcome A × Locals
  lift_host s (r, h) = (r, record s { host = h })

  abbrev pub on_host : {A : Type 0} → Action (Host k) A → Action Locals A
  on_host m s = lift_host s (m s.host)

  -- A result that does not depend on the state.
  abbrev pub result : {A : Type 0} → Outcome A → Action Locals A
  result r s = (r, s)

  -- The assignments to the two pointers.
  abbrev pub set_ter : Connection → Locals → Locals
  set_ter c s = record s { ter_connection = some c }

  abbrev pub set_sat : Connection → Locals → Locals
  set_sat c s = record s { sat_connection = some c }

  abbrev pub assign : (Connection → Locals → Locals) → Connection → Action Locals (Unit {0})
  assign set c s = (done tt, set c s)

  -- connection->SetSockOpt(IPPROTO_TCP, TCP_NODELAY, 1)
  abbrev pub set_no_delay : Connection → Action Locals (Unit {0})
  set_no_delay c =
      on_host (λ h. lift_world k h (set_sock_opt k c.fd ipproto_tcp tcp_nodelay 1 h.world))

  -- delete connection
  abbrev pub delete : Option Connection → Host k → Host k
  delete none h = h
  delete (some c) h = destroy k c h

  abbrev pub delete_both : Locals → Host k
  delete_both s = delete s.sat_connection (delete s.ter_connection s.host)

  -- Behind the try block. An exception is logged; a fault ends the program on the spot.
  abbrev pub finish : Outcome (Unit {0}) × Locals → Outcome ℕ × Host k
  finish (done u, s) = (done 0, delete_both s)
  finish (throws e, s) = (done 0, delete_both s)
  finish (fault x, s) = (fault x, s.host)

  -- A call outside of the try block.
  abbrev pub or_terminate :
      {A : Type 0} → Outcome A → Host k → (A → Outcome ℕ × Host k) → Outcome ℕ × Host k
  or_terminate (done a) h next = next a
  or_terminate (throws e) h next = (fault terminated, h)
  or_terminate (fault x) h next = (fault x, h)

  module _ (lib : Parser) (now : ℕ) where
    -- A way of the local side: connect to its endpoint, whose address is read again from its text.
    -- `self` is where the connection is allocated.
    unfoldable pub dial_way :
        ℕ → (Connection → Locals → Locals) → SockAddrIn → Action Locals (Unit {0})
    dial_way self set endpoint = do
      addr ← result (from_ip_port lib (ip endpoint) (port endpoint))
      c ← on_host (make_connection k self now addr)
      assign set c
      set_no_delay c

    -- A way of the remote side: wait for the connection. The listener stays.
    unfoldable pub accept_way :
        ℕ → (Connection → Locals → Locals) → SockAddrIn → Action Locals (Unit {0})
    accept_way self set endpoint = do
      addr ← result (from_ip_port lib (ip endpoint) (port endpoint))
      fd ← on_host (make_listener k addr)
      c ← on_host (accept k self now fd)
      assign set c
      set_no_delay c

    abbrev pub if_enabled : Bool → Action Locals (Unit {0}) → Action Locals (Unit {0})
    if_enabled true m = m
    if_enabled false m = pure tt

    -- Both ways, the terrestrial one first.
    unfoldable pub local_ways : Args → SockAddrIn → SockAddrIn → Action Locals (Unit {0})
    unfolding dial_way
    local_ways a ter sat =
        if_enabled a.ter_enabled (dial_way 0 set_ter ter)
        >> if_enabled a.sat_enabled (dial_way 1 set_sat sat)

    unfoldable pub remote_ways : Args → SockAddrIn → SockAddrIn → Action Locals (Unit {0})
    unfolding accept_way
    remote_ways a ter sat =
        if_enabled a.ter_enabled (accept_way 0 set_ter ter)
        >> if_enabled a.sat_enabled (accept_way 1 set_sat sat)

    -- The test on MODE.
    abbrev pub ways : Mode → Args → SockAddrIn → SockAddrIn → Action Locals (Unit {0})
    ways local a ter sat = local_ways a ter sat
    ways remote a ter sat = remote_ways a ter sat

    -- The try block: the ways, and then the bond, and the proxy of the local side, until a key is
    -- pressed, which are `serve`.
    unfoldable pub try_block :
        (Args → Action Locals (Unit {0}))
        → Args
        → SockAddrIn
        → SockAddrIn
        → Action Locals (Unit {0})
    unfolding local_ways remote_ways
    try_block serve a ter sat = ways a.mode a ter sat >> serve a

    -- The endpoints are read outside of the try block: an exception leaves main.
    abbrev pub endpoint : Bool → Text → Outcome SockAddrIn
    endpoint true text = from_endpoint lib text
    endpoint false text = done zero_addr

    -- main, behind init.
    unfoldable pub main : (Args → Action Locals (Unit {0})) → Args → Action (Host k) ℕ
    unfolding try_block
    main serve a h = or_terminate (endpoint a.ter_enabled a.ter) h (λ ter.
        or_terminate (endpoint a.sat_enabled a.sat) h (λ sat. finish (
          try_block serve a ter sat
            (record { host = h; ter_connection = none; sat_connection = none }))))
