-- ===== src/Net/Tcp/Ipv4.antt =====
-- The classes of `ipv4` in src/net/TcpSocket.cpp, TcpConnection.cpp and TcpListener.cpp, which pass
-- their calls on to src/net/Socket.h, Connection.h and Listener.h.
use multipath_proxy.Prelude.{ℕ, List}
use multipath_proxy.Action.{Action}
use multipath_proxy.Net.SockAddr.{SockAddrIn}
use multipath_proxy.Net.Socket
use multipath_proxy.Net.Socket.{Kernel}
use multipath_proxy.Net.Connection
use multipath_proxy.Net.Connection.{Host, sock_stream}
use multipath_proxy.Net.Listener

-- AF_INET
abbrev pub domain : ℕ
domain = 2

module _ (k : Kernel SockAddrIn) where
  -- TcpSocket()
  unfoldable pub new_socket : Action k.World ℕ
  new_socket = Socket.new_socket k domain sock_stream 0

  unfoldable pub bind : ℕ → SockAddrIn → Action k.World (Unit {0})
  bind = Socket.bind k

  unfoldable pub listen : ℕ → ℕ → Action k.World (Unit {0})
  listen = Socket.listen k

  unfoldable pub connect : ℕ → SockAddrIn → Action k.World (Unit {0})
  connect = Socket.connect k

  unfoldable pub send : ℕ → List ℕ → ℕ → Action k.World ℕ
  send = Socket.send k

  unfoldable pub recv : ℕ → ℕ → ℕ → Action k.World (List ℕ)
  recv = Socket.recv k

  unfoldable pub poll : ℕ → ℕ → ℕ → ℕ → Action k.World ℕ
  poll = Socket.poll k

  unfoldable pub get_sock_name : ℕ → Action k.World SockAddrIn
  get_sock_name = Socket.get_sock_name k

  unfoldable pub get_peer_name : ℕ → Action k.World SockAddrIn
  get_peer_name = Socket.get_peer_name k

  unfoldable pub close : ℕ → k.World → k.World
  close = Socket.close k

  -- TcpConnection::make, of the peer, and of the peer and the own address.
  unfoldable pub make_connection : ℕ → ℕ → SockAddrIn → Action (Host k) Connection.Connection
  make_connection self now = Connection.make k domain self now

  unfoldable pub make_bound_connection :
      ℕ → ℕ → SockAddrIn → SockAddrIn → Action (Host k) Connection.Connection
  make_bound_connection self now = Connection.make_bound k domain self now

  -- TcpListener::make, and its two Accepts.
  unfoldable pub make_listener : SockAddrIn → Action (Host k) ℕ
  make_listener = Listener.make k domain

  unfoldable pub accept : ℕ → ℕ → ℕ → Action (Host k) Connection.Connection
  accept = Listener.accept k

  unfoldable pub accept_from : ℕ → ℕ → ℕ → Action (Host k) (Connection.Connection × SockAddrIn)
  accept_from = Listener.accept_from k
