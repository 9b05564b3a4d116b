-- ===== src/Net/SockAddr/Parse.antt =====
-- src/net/SockAddr.h: addresses from text. inet_pton and std::stoi are parameters.
use multipath_proxy.Prelude.{
  ℕ, ◌-◌, ℤ, pos, negsuc, ◌%◌, ◌^◌, ◌<◌, ◌≡◌, ◌≢◌, refl, ◌∙◌, [], ◌∷◌, ◌++◌, Option, none, some,
  arith, ◌==◌, if◌then◌else◌,
}
use multipath_proxy.Exception.{ExceptionClass}
use multipath_proxy.Outcome.{Outcome, done, throws, ◌>>=◌}
use multipath_proxy.Text.{Text, codes}
use multipath_proxy.Net.SockAddr.{SockAddrIn, zero_addr, port, set_port, htons}

-- What inet_pton gives: the address, no address, or an error with its text.
pub data PtonResult : Type 0 where
  parsed : ℕ → PtonResult
  not_parsed : PtonResult
  pton_failed : Text → PtonResult

-- The functions of the C and C++ libraries.
pub record Parser : Type 0 where
  pub inet_pton : Text → PtonResult
  pub stoi : Text → Outcome ℤ

-- An int as a uint16_t.
abbrev pub to_u16 : ℤ → ℕ
to_u16 (pos n) = n % 2 ^ 16
to_u16 (negsuc n) = 2 ^ 16 - 1 - n % 2 ^ 16

abbrev pub colon : ℕ
colon = 58

-- find(':') and the two calls of substr: the text in front of the first colon, and behind it. Without
-- a colon find gives npos, which is -1 as an int, and both are the whole text.
unfoldable pub split_at_colon : Text → Option (Text × Text)
split_at_colon [] = none
split_at_colon (c ∷ cs) =
    let rest = split_at_colon cs in
    if c == colon then some ([], cs) else elim rest [ none ↦ none | some (a, b) ↦ some (c ∷ a, b) ]

unfoldable pub endpoint_parts : Text → Text × Text
endpoint_parts s = elim (split_at_colon s) [ none ↦ (s, s) | some parts ↦ parts ]

module _ (lib : Parser) where
  -- ip(std::string)
  unfoldable pub set_ip : Text → SockAddrIn → Outcome SockAddrIn
  set_ip s a = elim (lib.inet_pton s) [
    | parsed addr ↦ done (record a { sin_addr = addr })
    | not_parsed ↦ throws (record {
      class = ExceptionClass.sock_addr_error_exception;
      message = codes "not a valid ipv4 address.";
    })
    | pton_failed e ↦ throws (record {
      class = ExceptionClass.sock_addr_error_exception;
      message = codes "inet_pton() failed. errno=" ++ e;
    })
  ]

  -- SockAddr_In(std::string, uint16_t)
  unfoldable pub from_ip_port : Text → ℕ → Outcome SockAddrIn
  from_ip_port s p = do a ← set_ip s zero_addr; done (set_port a (p % 2 ^ 16))

  -- SockAddr_In(std::string)
  unfoldable pub from_endpoint : Text → Outcome SockAddrIn
  from_endpoint s = do
    a ← set_ip (endpoint_parts s).0 zero_addr
    p ← lib.stoi (endpoint_parts s).1
    done (set_port a (to_u16 p))

-- No colon in the text.
abbrev pub NoColon : Text → Type 0
NoColon [] = Unit {0}
NoColon (c ∷ cs) = (c ≢ colon) × NoColon cs

split_at_colon-append : (s t : Text) → NoColon s → split_at_colon (s ++ (colon ∷ t)) ≡ some (s, t)
unfolding split_at_colon
split_at_colon-append [] t n = refl
split_at_colon-append (c ∷ cs) t n = rw (split_at_colon-append cs t n.1) (ground (arith, n.0))

split_at_colon-none : (s : Text) → NoColon s → split_at_colon s ≡ none
unfolding split_at_colon
split_at_colon-none [] n = refl
split_at_colon-none (c ∷ cs) n = rw (split_at_colon-none cs n.1) (ground (arith, n.0))

-- port() gives the port below 2 ^ 16 that port(uint16_t) has set.
pub port-set_port : (a : SockAddrIn) (p : ℕ) → p < 2 ^ 16 → port (set_port a p) ≡ p
unfolding port set_port htons
port-set_port a p lt = omega arith

endpoint_parts-append : (s t : Text) → NoColon s → endpoint_parts (s ++ (colon ∷ t)) ≡ (s, t)
unfolding endpoint_parts
endpoint_parts-append s t n = rw (split_at_colon-append s t n, endpoint_parts) refl

endpoint_parts-whole : (s : Text) → NoColon s → endpoint_parts s ≡ (s, s)
unfolding endpoint_parts
endpoint_parts-whole s n = rw (split_at_colon-none s n, endpoint_parts) refl

module _ (lib : Parser) (s : Text) (addr p : ℕ) (n : NoColon s)
    (ip_read : lib.inet_pton s ≡ parsed addr) (small : p < 2 ^ 16) where
  set_ip-parsed : set_ip lib s zero_addr ≡ done (record zero_addr { sin_addr = addr })
  unfolding set_ip
  set_ip-parsed = rw (ip_read, set_ip) refl

  -- With the port behind a colon, or without a colon, where the port is read from the whole text.
  read_parts :
      (text t : Text)
      → endpoint_parts text ≡ (s, t)
      → lib.stoi t ≡ done (pos p)
      → (a : SockAddrIn) × (from_endpoint lib text ≡ done a) × (a.sin_addr ≡ addr) × (port a ≡ p)
  unfolding from_endpoint
  read_parts text t parts port_read =
      let whole : p % 2 ^ 16 ≡ p = omega arith in
      (
        set_port (record zero_addr { sin_addr = addr }) (p % 2 ^ 16),
        rw (parts, set_ip-parsed, port_read) refl,
        unfold set_port in refl,
        port-set_port (record zero_addr { sin_addr = addr }) (p % 2 ^ 16) (omega arith) ∙ whole,
      )

  -- SockAddr_In of a text with a colon, behind an address without one that inet_pton reads, and
  -- with a port below 2 ^ 16 that stoi reads, succeeds and has that address and, by port(), that
  -- port.
  pub from_endpoint_lem :
      (t : Text)
      → lib.stoi t ≡ done (pos p)
      → (a : SockAddrIn) × (from_endpoint lib (s ++ (colon ∷ t)) ≡ done a)
        × (a.sin_addr ≡ addr)
        × (port a ≡ p)
  from_endpoint_lem t port_read =
      read_parts (s ++ (colon ∷ t)) t (endpoint_parts-append s t n) port_read

  -- SockAddr_In of a text without a colon that inet_pton reads as an address and stoi as a number
  -- below 2 ^ 16 succeeds, with that number as its port.
  pub from_endpoint-no_colon :
      lib.stoi s ≡ done (pos p)
      → (a : SockAddrIn) × (from_endpoint lib s ≡ done a) × (a.sin_addr ≡ addr) × (port a ≡ p)
  from_endpoint-no_colon port_read = read_parts s s (endpoint_parts-whole s n) port_read
