-- ===== src/Net/Tcp.antt =====
-- src/net/TcpSocket.cpp, TcpConnection.cpp and TcpListener.cpp: the sockets of the two families.
pub mod Ipv4
pub mod Ipv6
use multipath_proxy.Prelude.{ℕ, ◌++◌}
use multipath_proxy.Text.{Text, codes, decimal}

-- TcpSocket::ToString, of both.
unfoldable pub to_string : ℕ → Text
to_string fd = codes "TcpSocket[fd=" ++ (decimal fd ++ codes "]")
