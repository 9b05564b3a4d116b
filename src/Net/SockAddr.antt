-- ===== src/Net/SockAddr.antt =====
-- src/net/SockAddr.h, `ipv4::SockAddr_In` and the comparison of `ipv6::SockAddr_In6`.
-- `sin_addr` and `sin_port` are the words in memory, in network order on a little-endian host.
pub mod Parse
pub mod Six
pub mod Text6
use multipath_proxy.Prelude.{ℕ, ◌+◌, ◌*◌, ◌/◌, ◌%◌, ◌^◌, Bool, ◌&&◌, ◌++◌, ◌==◌, take}
use multipath_proxy.Text.{Text, codes, decimal}

pub record SockAddrIn : Type 0 where
  pub sin_family : ℕ
  pub sin_port : ℕ
  pub sin_addr : ℕ

abbrev pub af_inet : ℕ
af_inet = 2

-- htons and ntohs: the two bytes change places.
unfoldable pub htons : ℕ → ℕ
htons n = n % 256 * 256 + n / 256 % 256

abbrev pub ntohs : ℕ → ℕ
ntohs = htons

-- SockAddr_In(): all zero but the family.
abbrev pub zero_addr : SockAddrIn
zero_addr = record { sin_family = af_inet; sin_port = 0; sin_addr = 0 }

-- SockAddr_In(in_addr, in_port_t)
abbrev pub of_words : ℕ → ℕ → SockAddrIn
of_words addr port = record { sin_family = af_inet; sin_port = port; sin_addr = addr }

-- operator==
abbrev pub same_addr : SockAddrIn → SockAddrIn → Bool
same_addr a b =
    a.sin_family == b.sin_family && (a.sin_addr == b.sin_addr && a.sin_port == b.sin_port)

unfoldable pub port : SockAddrIn → ℕ
unfolding htons
port a = ntohs a.sin_port

unfoldable pub set_port : SockAddrIn → ℕ → SockAddrIn
unfolding htons
set_port a p = record a { sin_port = htons p }

-- `0xFF000000 & s_addr >> 24` and its siblings: the bytes of the word, the highest first.
abbrev pub octet : ℕ → ℕ → ℕ
octet addr i = addr / 256 ^ i % 256

-- ip(): snprintf into 16 characters keeps 15 of them.
unfoldable pub ip : SockAddrIn → Text
ip s =
    let dot = codes "." in
    let a = decimal (octet s.sin_addr 3) in
    let b = decimal (octet s.sin_addr 2) in
    let c = decimal (octet s.sin_addr 1) in
    let d = decimal (octet s.sin_addr 0) in
    take 15 (d ++ (dot ++ (c ++ (dot ++ (b ++ (dot ++ a))))))

unfoldable pub to_string : SockAddrIn → Text
unfolding ip port
to_string a = ip a ++ (codes ":" ++ decimal (port a))
