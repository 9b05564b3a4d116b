-- ===== src/Net/SockAddr/Six.antt =====
-- src/net/SockAddr.h: `SockAddr`, the head of all addresses, and `ipv6::SockAddr_In6`.
use mathlib.Core.Path.{ap₂}
use multipath_proxy.Prelude.{
  ℕ, ◌≡◌, ◌≢◌, ◌↔◌, refl, sym, ◌∙◌, ap, Bool, true, false, not, ◌&&◌, List, [], ◌∷◌, ◌++◌, arith,
  ◌==◌, if◌then◌else◌, replicate,
}
use multipath_proxy.Memory.{le_bytes}
use multipath_proxy.Text.{Text, codes}
use multipath_proxy.Net.SockAddr.{htons}

-- SockAddr, with the bytes behind the family.
pub record SockAddr : Type 0 where
  pub sa_family : ℕ
  pub sa_data : List ℕ

abbrev pub of_family : ℕ → SockAddr
of_family f = record { sa_family = f; sa_data = replicate 14 0 }

-- AF_UNIX, AF_INET and AF_INET6
unfoldable pub family_name : ℕ → Text
family_name f =
    if f == 1
    then codes "AF_UNIX"
    else if f == 2
    then codes "AF_INET"
    else if f == 10
    then codes "AF_INET6"
    else []

unfoldable pub to_string : SockAddr → Text
to_string a = codes "SA[family=" ++ (family_name a.sa_family ++ codes "]")

-- SockAddr_In6, with the address as its 16 bytes.
pub record SockAddrIn6 : Type 0 where
  pub sin6_family : ℕ
  pub sin6_port : ℕ
  pub sin6_flowinfo : ℕ
  pub sin6_addr : List ℕ
  pub sin6_scope_id : ℕ

abbrev pub zero_addr6 : SockAddrIn6
zero_addr6 = record {
  sin6_family = 10;
  sin6_port = 0;
  sin6_flowinfo = 0;
  sin6_addr = replicate 16 0;
  sin6_scope_id = 0;
}

abbrev pub of_words6 : List ℕ → ℕ → SockAddrIn6
of_words6 addr p = record zero_addr6 { sin6_addr = addr; sin6_port = p }

unfoldable pub port6 : SockAddrIn6 → ℕ
port6 a = htons a.sin6_port

unfoldable pub set_port6 : SockAddrIn6 → ℕ → SockAddrIn6
set_port6 a p = record a { sin6_port = htons p }

-- The struct in memory.
unfoldable pub memory6 : SockAddrIn6 → List ℕ
memory6 a =
    le_bytes 2 a.sin6_family
    ++ (le_bytes 2 a.sin6_port
        ++ (le_bytes 4 a.sin6_flowinfo ++ (a.sin6_addr ++ le_bytes 4 a.sin6_scope_id)))

unfoldable pub same_bytes : List ℕ → List ℕ → Bool
same_bytes [] [] = true
same_bytes (x ∷ xs) (y ∷ ys) = x == y && same_bytes xs ys
same_bytes _ _ = false

-- operator==: memcmp(…) as a bool, which is true unless the bytes are the same.
unfoldable pub equals6 : SockAddrIn6 → SockAddrIn6 → Bool
equals6 a b = not (same_bytes (memory6 a) (memory6 b))

same_bytes_refl : (xs : List ℕ) → same_bytes xs xs ≡ true
unfolding same_bytes
same_bytes_refl [] = refl
same_bytes_refl (x ∷ xs) = ground (arith, same_bytes_refl xs)

same_bytes→eq : (xs ys : List ℕ) → same_bytes xs ys ≡ true → xs ≡ ys
unfolding same_bytes
same_bytes→eq [] [] e = refl
same_bytes→eq [] (y ∷ ys) e = absurd cc
same_bytes→eq (x ∷ xs) [] e = absurd cc
same_bytes→eq (x ∷ xs) (y ∷ ys) e =
    let heads : x ≡ y = ground arith in
    let tails : same_bytes xs ys ≡ true = ground arith in ap₂ ◌∷◌ heads (same_bytes→eq xs ys tails)

not-true : (b : Bool) → b ≡ true → not b ≢ true
not-true true e h = cc
not-true false e h = cc

not-false : (b : Bool) → (b ≡ true → ⊥) → not b ≡ true
not-false true f = absurd (f refl)
not-false false f = refl

-- operator== of SockAddr_In6 is true exactly for two addresses whose bytes differ.
pub equals6_inverted : (a b : SockAddrIn6) → (equals6 a b ≡ true) ↔ (memory6 a ≢ memory6 b)
unfolding equals6
equals6_inverted a b = (
  λ e m.
      not-true (same_bytes (memory6 a) (memory6 b))
        (ap (same_bytes (memory6 a)) (sym m) ∙ same_bytes_refl (memory6 a)) e,
  λ n.
      not-false (same_bytes (memory6 a) (memory6 b))
        (λ e. n (same_bytes→eq (memory6 a) (memory6 b) e)),
)
