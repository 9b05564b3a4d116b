-- ===== src/Net/SockAddr/Text6.antt =====
-- src/net/SockAddr.h: the text forms of `ipv6::SockAddr_In6`. inet_pton, inet_ntop and std::stoi are
-- parameters.
use multipath_proxy.Prelude.{
  ℕ, ℤ, ◌%◌, ◌^◌, ◌≡◌, ◌≢◌, refl, ap, List, [], ◌∷◌, ◌++◌, Option, none, some, arith, ◌==◌,
  Bool-cases, inl, inr,
}
use multipath_proxy.Exception.{Exception, ExceptionClass}
use multipath_proxy.Outcome.{Outcome, done, throws, ◌>>=◌}
use multipath_proxy.Text.{Text, codes, decimal}
use multipath_proxy.Net.SockAddr.Parse.{to_u16, colon, split_at_colon, endpoint_parts, NoColon}
use multipath_proxy.Net.SockAddr.Six.{SockAddrIn6, zero_addr6, port6, set_port6}

-- What inet_pton gives: the bytes of the address, no address, or an error with its text.
pub data Pton6Result : Type 0 where
  parsed6 : List ℕ → Pton6Result
  not_parsed6 : Pton6Result
  pton6_failed : Text → Pton6Result

-- inet_ntop gives a text, or fails with the text of errno. A text that inet_pton reads as an IPv6
-- address has a colon.
pub record Parser6 : Type 0 where
  pub inet_pton : Text → Pton6Result
  pub inet_ntop : List ℕ → Outcome Text
  pub stoi : Text → Outcome ℤ
  pub has_colon : (s : Text) {bytes : List ℕ} → inet_pton s ≡ parsed6 bytes → ¬ NoColon s

abbrev pub addr_error : Text → Exception
addr_error text = record { class = ExceptionClass.sock_addr_error_exception; message = text }

-- The test of the result of inet_pton.
abbrev pub store_ip : SockAddrIn6 → Pton6Result → Outcome SockAddrIn6
store_ip a (parsed6 bytes) = done (record a { sin6_addr = bytes })
store_ip a not_parsed6 = throws (addr_error (codes "not a valid ipv6 address."))
store_ip a (pton6_failed e) = throws (addr_error (codes "inet_pton() failed. errno=" ++ e))

module _ (lib : Parser6) where
  -- ip(std::string)
  unfoldable pub set_ip6 : Text → SockAddrIn6 → Outcome SockAddrIn6
  set_ip6 s a = store_ip a (lib.inet_pton s)

  -- SockAddr_In6(std::string, uint16_t)
  unfoldable pub from_ip_port6 : Text → ℕ → Outcome SockAddrIn6
  from_ip_port6 s p = do a ← set_ip6 s zero_addr6; done (set_port6 a (p % 2 ^ 16))

  -- SockAddr_In6(std::string)
  unfoldable pub from_endpoint6 : Text → Outcome SockAddrIn6
  from_endpoint6 s = do
    a ← set_ip6 (endpoint_parts s).0 zero_addr6
    p ← lib.stoi (endpoint_parts s).1
    done (set_port6 a (to_u16 p))

  -- ip(), which throws where inet_ntop fails, and ToString.
  abbrev pub ntop_failed : Outcome Text → Outcome Text
  ntop_failed (throws e) = throws (addr_error (codes "inet_ntop() failed. errno=" ++ e.message))
  ntop_failed r = r

  unfoldable pub ip6 : SockAddrIn6 → Outcome Text
  ip6 a = ntop_failed (lib.inet_ntop a.sin6_addr)

  unfoldable pub to_string6 : SockAddrIn6 → Outcome Text
  to_string6 a = do ip ← ip6 a; done (ip ++ (codes ":" ++ decimal (port6 a)))

-- The part in front of the first colon has none, and neither has a text that is not split.
Clean : Text → Option (Text × Text) → Type 0
Clean s none = NoColon s
Clean s (some (a, b)) = NoColon a

Clean-cons :
    (c : ℕ) (cs : Text) (o : Option (Text × Text))
    → c ≢ colon
    → Clean cs o
    → Clean (c ∷ cs) (elim o [ none ↦ none | some (a, b) ↦ some (c ∷ a, b) ])
unfolding Clean
Clean-cons c cs none h k = (h, k)
Clean-cons c cs (some (a, b)) h k = (h, k)

split_at_colon-Clean : (s : Text) → Clean s (split_at_colon s)
unfolding split_at_colon Clean
split_at_colon-Clean [] = tt
split_at_colon-Clean (c ∷ cs) = elim (Bool-cases (c == colon)) [
  | inl y ↦ rw y tt
  | inr n ↦ rw n (Clean-cons c cs (split_at_colon cs) (ground arith) (split_at_colon-Clean cs))
]

endpoint_parts-NoColon : (s : Text) → NoColon (endpoint_parts s).0
unfolding endpoint_parts Clean
endpoint_parts-NoColon s = go (split_at_colon s) (split_at_colon-Clean s)
  where
    go :
        (o : Option (Text × Text))
        → Clean s o
        → NoColon (elim o as (λ _. Text × Text) [ none ↦ (s, s) | some parts ↦ parts ]).0
    go none k = k
    go (some (a, b)) k = k

module _ (lib : Parser6) where
  store_ip-fails :
      (s : Text) (a : SockAddrIn6) (r : Pton6Result)
      → lib.inet_pton s ≡ r
      → NoColon s
      → (e : Exception) × (store_ip a r ≡ throws e)
  store_ip-fails s a (parsed6 bytes) h n = absurd (lib.has_colon s h n)
  store_ip-fails s a not_parsed6 h n = (addr_error (codes "not a valid ipv6 address."), refl)
  store_ip-fails s a (pton6_failed t) h n =
      (addr_error (codes "inet_pton() failed. errno=" ++ t), refl)

  -- Where inet_pton reads no text without a colon as an IPv6 address, SockAddr_In6 of an endpoint
  -- throws for every text: it takes the address to end at the first colon.
  pub from_endpoint6-throws : (s : Text) → (e : Exception) × (from_endpoint6 lib s ≡ throws e)
  unfolding from_endpoint6 set_ip6
  from_endpoint6-throws s =
      let (e, fails) =
        store_ip-fails (endpoint_parts s).0 zero_addr6 (lib.inet_pton (endpoint_parts s).0) refl
          (endpoint_parts-NoColon s) in
      (
        e,
        ap (λ o. o >>= λ a. lib.stoi (endpoint_parts s).1 >>= λ p. done (set_port6 a (to_u16 p)))
            fails,
      )
