-- ===== src/Net.antt =====
-- src/net: addresses, connections, the flows of a proxy, and the bond of its two paths.
pub mod SockAddr
pub mod Transport
pub mod Socket
pub mod Connection
pub mod Listener
pub mod Tcp
pub mod Receive
pub mod Send
pub mod Flow
pub mod Bond
pub mod TwoPaths
pub mod EndToEnd
pub mod Proxy
