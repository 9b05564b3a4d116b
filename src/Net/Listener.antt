-- ===== src/Net/Listener.antt =====
-- src/net/Listener.h, which src/net/TcpListener.h inherits: a socket that accepts connections.
use multipath_proxy.Prelude.{ℕ, ◌++◌}
use multipath_proxy.Text.{Text, codes, decimal}
use multipath_proxy.Action.{Action, pure, ◌>>=◌, ◌>>◌, or_destroy}
use multipath_proxy.Net.Socket
use multipath_proxy.Net.Socket.{Kernel}
use multipath_proxy.Net.Connection.{
  Connection, Host, on_socket, close_socket, of_fd, sock_stream, sol_socket, so_reuseaddr,
}

-- SOMAXCONN, the default of Listen.
abbrev pub somaxconn : ℕ
somaxconn = 4096

module _ {SA : Type 0} (k : Kernel SA) where
  -- Listener(): the descriptor of a socket whose address can be used again.
  unfoldable pub new : ℕ → Action (Host k) ℕ
  new domain = do
    fd ← on_socket k (Socket.new_socket k domain sock_stream 0)
    or_destroy (on_socket k (Socket.set_sock_opt k fd sol_socket so_reuseaddr 1))
        (close_socket k fd)
    pure fd

  -- The body of Listener(SA).
  unfoldable pub set_up : SA → ℕ → Action (Host k) (Unit {0})
  set_up addr fd = do
    on_socket k (Socket.bind k fd addr)
    on_socket k (Socket.listen k fd somaxconn)

  -- Listener(SA): where the body throws, the socket is closed.
  unfoldable pub make : ℕ → SA → Action (Host k) ℕ
  unfolding new set_up
  make domain addr = do fd ← new domain; or_destroy (set_up addr fd) (close_socket k fd); pure fd

  -- Accept and Accept(SA &): the new object is a connection of the descriptor.
  unfoldable pub accept_from : ℕ → ℕ → ℕ → Action (Host k) (Connection × SA)
  accept_from self now fd = do
    (new_fd, addr) ← on_socket k (Socket.accept_from k fd)
    c ← of_fd k self now new_fd
    pure (c, addr)

  unfoldable pub accept : ℕ → ℕ → ℕ → Action (Host k) Connection
  accept self now fd = do new_fd ← on_socket k (Socket.accept k fd); of_fd k self now new_fd

  -- ToString of Listener, which asks for the address.
  unfoldable pub to_string : (SA → Text) → ℕ → Action (Host k) Text
  to_string show fd = do
    addr ← on_socket k (Socket.get_sock_name k fd)
    pure (codes "Listener[fd=" ++ (decimal fd ++ (codes ", sockName=" ++ (show addr ++ codes "]"))))

-- ToString of TcpListener.
unfoldable pub tcp_to_string : ℕ → Text
tcp_to_string fd = codes "TcpListener[fd=" ++ (decimal fd ++ codes "]")
