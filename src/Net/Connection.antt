-- ===== src/Net/Connection.antt =====
-- src/net/Connection.h, which src/net/TcpConnection.h and src/net/TcpSocket.h inherit: a socket that
-- is registered with the connection manager and counts its bytes.
pub mod Lifetime
pub mod Reuse
use multipath_proxy.Prelude.{
  ℕ, ◌+◌, ◌-◌, ◌/◌, ◌%◌, ◌^◌, Bool, true, false, not, List, ◌++◌, ◌==◌, if◌then◌else◌, length,
}
use multipath_proxy.Outcome.{Outcome, done, throws}
use multipath_proxy.Text.{Text, codes, decimal}
use multipath_proxy.Action.{Action, pure, ◌>>=◌, ◌>>◌, or_destroy}
use multipath_proxy.Collections.BlockingQueue.{add64, sub64}
use multipath_proxy.Collections.ConnectionManager
use multipath_proxy.Collections.ConnectionManager.{ConnectionManager}
use multipath_proxy.Net.Socket
use multipath_proxy.Net.Socket.{Kernel}

-- A connection. `self` is its address; times are those of the system clock.
pub record Connection : Type 0 where
  pub self : ℕ
  pub fd : ℕ
  pub recv_bytes : ℕ
  pub send_bytes : ℕ
  pub last_recv_bytes : ℕ
  pub last_recv_time : ℕ
  pub last_send_bytes : ℕ
  pub last_send_time : ℕ

-- The fields as they are initialised.
abbrev pub fresh_connection : ℕ → ℕ → ℕ → Connection
fresh_connection self fd now = record {
  self = self;
  fd = fd;
  recv_bytes = 0;
  send_bytes = 0;
  last_recv_bytes = 0;
  last_recv_time = now;
  last_send_bytes = 0;
  last_send_time = now;
}

-- SOCK_STREAM, SOL_SOCKET, SO_REUSEADDR, MSG_NOSIGNAL, TIOCOUTQ and FIONREAD.
abbrev pub sock_stream : ℕ
sock_stream = 1

abbrev pub sol_socket : ℕ
sol_socket = 1

abbrev pub so_reuseaddr : ℕ
so_reuseaddr = 2

abbrev pub tiocoutq : ℕ
tiocoutq = 0x5411

abbrev pub fionread : ℕ
fionread = 0x541B

-- flags | MSG_NOSIGNAL, which is the bit 14.
abbrev pub no_signal : ℕ → ℕ
no_signal flags = if flags / 2 ^ 14 % 2 == 1 then flags else flags + 2 ^ 14

-- The division of the data rates, in floating point: bytes, the time now and the time before.
pub record Floats : Type 1 where
  pub Float : Type 0
  pub zero : Float
  pub rate : ℕ → ℕ → ℕ → Float

module _ {SA : Type 0} (k : Kernel SA) where
  -- The system and the connection manager of the default context.
  pub record Host : Type 0 where
    pub world : k.World
    pub connections : ConnectionManager

  abbrev pub lift_world : {A : Type 0} → Host → Outcome A × k.World → Outcome A × Host
  lift_world h (r, w) = (r, record h { world = w })

  abbrev pub on_socket : {A : Type 0} → Action k.World A → Action Host A
  on_socket m h = lift_world h (m h.world)

  -- ~Socket
  abbrev pub close_socket : ℕ → Host → Host
  close_socket fd h = record h { world = Socket.close k fd h.world }

  -- The registration, which a constructor does last.
  abbrev pub register : Connection → Action Host (Unit {0})
  register c h =
      (done tt, record h { connections = ConnectionManager.insert c.fd c.self h.connections })

  -- Close
  unfoldable pub close : Connection → Host → Host
  close c h = close_socket c.fd h

  -- ~Connection, and behind it ~Socket.
  unfoldable pub destroy : Connection → Host → Host
  destroy c h =
      close_socket c.fd (record h { connections = ConnectionManager.erase c.fd h.connections })

  -- The constructors behind the one of the socket: where Connection() throws, only the socket is
  -- destroyed.
  unfoldable pub set_up : ℕ → ℕ → ℕ → Action Host Connection
  set_up self now fd = do
    or_destroy (on_socket (Socket.set_sock_opt k fd sol_socket so_reuseaddr 1)) (close_socket fd)
    register (fresh_connection self fd now)
    pure (fresh_connection self fd now)

  -- Connection()
  unfoldable pub new : ℕ → ℕ → ℕ → Action Host Connection
  unfolding set_up
  new domain self now = do
    fd ← on_socket (Socket.new_socket k domain sock_stream 0)
    set_up self now fd

  -- The body of Connection(SA), whose target constructor is complete: where connect throws, the
  -- destructor runs.
  unfoldable pub dial : SA → Connection → Action Host Connection
  dial peer c = do or_destroy (on_socket (Socket.connect k c.fd peer)) (destroy c); pure c

  -- Connection(SA)
  unfoldable pub make : ℕ → ℕ → ℕ → SA → Action Host Connection
  unfolding new dial
  make domain self now peer = do c ← new domain self now; dial peer c

  -- Connection(SA, SA), which binds to the address of the peer and does not use the other one.
  unfoldable pub make_bound : ℕ → ℕ → ℕ → SA → SA → Action Host Connection
  unfolding new
  make_bound domain self now peer sock = do
    c ← new domain self now
    or_destroy (on_socket (Socket.bind k c.fd peer) >> on_socket (Socket.connect k c.fd peer))
        (destroy c)
    pure c

  -- Connection(int), of a descriptor that accept has given.
  unfoldable pub of_fd : ℕ → ℕ → ℕ → Action Host Connection
  of_fd self now fd = do
    register (fresh_connection self fd now)
    pure (fresh_connection self fd now)

  -- Recv and Send, with the counts of the metrics.
  unfoldable pub recv : Bool → Connection → ℕ → ℕ → Action Host (List ℕ × Connection)
  recv metrics c size flags = do
    bytes ← on_socket (Socket.recv k c.fd size flags)
    let counted = record c { recv_bytes = add64 c.recv_bytes (length bytes) }
    pure (bytes, if metrics then counted else c)

  unfoldable pub send : Bool → Connection → List ℕ → ℕ → Action Host (ℕ × Connection)
  send metrics c bytes flags = do
    n ← on_socket (Socket.send k c.fd bytes (no_signal flags))
    let counted = record c { send_bytes = add64 c.send_bytes n }
    pure (n, if metrics then counted else c)

  -- sendBufferSize and recvBufferSize
  unfoldable pub send_buffer_size : Connection → Action Host ℕ
  send_buffer_size c = on_socket (Socket.io_ctl k c.fd tiocoutq)

  unfoldable pub recv_buffer_size : Connection → Action Host ℕ
  recv_buffer_size c = on_socket (Socket.io_ctl k c.fd fionread)

  unfoldable pub shutdown : Connection → ℕ → Action Host (Unit {0})
  shutdown c how = on_socket (Socket.shutdown k c.fd how)

-- recvBytes and sendBytes
unfoldable pub get_recv_bytes : Bool → Connection → ℕ
get_recv_bytes metrics c = if metrics then c.recv_bytes else 0

unfoldable pub get_send_bytes : Bool → Connection → ℕ
get_send_bytes metrics c = if metrics then c.send_bytes else 0

module _ (floats : Floats) where
  -- recvDataRate and sendDataRate
  unfoldable pub recv_data_rate : Bool → ℕ → Connection → floats.Float × Connection
  recv_data_rate metrics now c =
      let bytes = sub64 c.recv_bytes c.last_recv_bytes in
      let seen = record c { last_recv_time = now; last_recv_bytes = c.recv_bytes } in
      if metrics then (floats.rate bytes now c.last_recv_time, seen) else (floats.zero, c)

  unfoldable pub send_data_rate : Bool → ℕ → Connection → floats.Float × Connection
  send_data_rate metrics now c =
      let bytes = sub64 c.send_bytes c.last_send_bytes in
      let seen = record c { last_send_time = now; last_send_bytes = c.send_bytes } in
      if metrics then (floats.rate bytes now c.last_send_time, seen) else (floats.zero, c)

-- ToString of the class, and of TcpConnection.
unfoldable pub to_string : Connection → Text
to_string c = codes "Connection[fd=" ++ (decimal c.fd ++ codes "]")

unfoldable pub tcp_to_string : Connection → Text
tcp_to_string c = codes "TcpConnection[fd=" ++ (decimal c.fd ++ codes "]")
