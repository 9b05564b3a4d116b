-- ===== src/Main/Dial.antt =====
-- One way of the local side of main (src/main.cpp): what holds behind its calls.
use multipath_proxy.Prelude.{ℕ, ◌≡◌, ◌≢◌, refl, arith}
use multipath_proxy.Outcome.{Outcome, Fault, done, throws, fault}
use multipath_proxy.Text.{Text}
use multipath_proxy.Action.{Action, go_on}
use multipath_proxy.Net.SockAddr.{SockAddrIn, ip, port}
use multipath_proxy.Net.SockAddr.Parse.{Parser, from_ip_port, set_ip}
use multipath_proxy.Net.Socket.{Kernel, Answer, ok, failed, or_throw, set_sock_opt}
use multipath_proxy.Net.Connection.{Connection, Host, lift_world}
use multipath_proxy.Net.Connection.Lifetime.{Descriptors, is_open, known, IsTidy, Made, make-Made}
use multipath_proxy.Net.Tcp.Ipv4.{make_connection}
use multipath_proxy.Main.{
  Locals, lift_host, assign, set_no_delay, dial_way, ipproto_tcp, tcp_nodelay,
}

-- A condition on the state behind a call that does not end the program.
abbrev pub Post : {S A : Type 0} → (S → Type 0) → Outcome A × S → Type 0
Post P (done a, s) = P s
Post P (throws e, s) = P s
Post P (fault x, s) = ⊥

pub go_on-Post :
    {S A B : Type 0} (P Q : S → Type 0) (r : Outcome A × S) (f : A → Action S B)
    → Post P r
    → ((s : S) → P s → Q s)
    → ((a : A) (s : S) → P s → Post Q (f a s))
    → Post Q (go_on r f)
go_on-Post P Q (done a, s) f p weaken next = next a s p
go_on-Post P Q (throws e, s) f p weaken next = weaken s p
go_on-Post P Q (fault x, s) f p weaken next = p

from_ip_port-not_fault :
    (lib : Parser) (s : Text) (p : ℕ) (x : Fault) → from_ip_port lib s p ≢ fault x
unfolding from_ip_port set_ip
from_ip_port-not_fault lib s p x e = ground arith

module _ (k : Kernel SockAddrIn) (table : Descriptors k) where
  -- A condition that a call on a descriptor keeps.
  abbrev pub IsStable : (Locals k → Type 0) → Type 0
  IsStable Q =
      (s : Locals k) (w : k.World)
      → ((g : ℕ) → table.open_at w g ≡ is_open k table s.host g)
      → Q s
      → Q (record s { host = record s.host { world = w } })

  no_delay_answer :
      (Q : Locals k → Type 0) (s : Locals k) (a : Answer (Unit {0}) × k.World)
      → Q (record s { host = record s.host { world = a.1 } })
      → Post Q (lift_host k s (lift_world k s.host (or_throw k.strerror a)))
  no_delay_answer Q s (ok u, w) q = q
  no_delay_answer Q s (failed e, w) q = q

  no_delay-Post :
      (Q : Locals k → Type 0)
      → IsStable Q
      → (c : Connection) (s : Locals k) → Q s
      → Post Q (set_no_delay k c s)
  unfolding set_sock_opt
  no_delay-Post Q stable c s q =
      no_delay_answer Q s (k.setsockopt c.fd ipproto_tcp tcp_nodelay 1 s.host.world)
        (stable s _ (table.setsockopt_keeps c.fd ipproto_tcp tcp_nodelay 1 s.host.world) q)

  -- One way of the local side, from a state with `P` to one with `Q`.
  module _ (P Q : Locals k → Type 0) (stable : IsStable Q) (weaken : (s : Locals k) → P s → Q s)
      (neat : (s : Locals k) → P s → IsTidy k table s.host) (set : Connection → Locals k → Locals k)
      (self : ℕ)
      (made : (s : Locals k) (c : Connection) (r : Host k)
        → P s
        → Made k table s.host self (done c, r)
        → Q (set c (record s { host = r })))
      (unmade : (s : Locals k) (r : Host k)
        → P s
        → ((g : ℕ) → is_open k table r g ≡ is_open k table s.host g)
        → ((g : ℕ) → known k table r g ≡ known k table s.host g)
        → Q (record s { host = r })) where
    make_answer :
        (s : Locals k) (o : Outcome Connection × Host k)
        → P s
        → Made k table s.host self o
        → Post Q (go_on (lift_host k s o) (λ c t. go_on (assign k set c t) (λ _. set_no_delay k c)))
    make_answer s (done c, r) p m =
        no_delay-Post Q stable c (set c (record s { host = r })) (made s c r p m)
    make_answer s (throws e, r) p (opens, knows) = unmade s r p opens knows
    make_answer s (fault x, r) p m = m

    dial_answer :
        (now : ℕ) (s : Locals k) (a : Outcome SockAddrIn)
        → ((x : Fault) → a ≢ fault x)
        → P s
        → Post Q (
            go_on
              (a, s)
              (λ addr t.
                go_on
                  (lift_host k t (make_connection k self now addr t.host))
                  (λ c u. go_on (assign k set c u) (λ _. set_no_delay k c))))
    unfolding make_connection
    dial_answer now s (done addr) sane p =
        make_answer s _ p (make-Made k table s.host (neat s p) self 2 now addr)
    dial_answer now s (throws e) sane p = weaken s p
    dial_answer now s (fault x) sane p = sane x refl

    pub dial-Post :
        (lib : Parser) (now : ℕ) (addr : SockAddrIn) (s : Locals k)
        → P s
        → Post Q (dial_way k lib now self set addr s)
    unfolding dial_way
    dial-Post lib now addr s p =
        dial_answer now s (from_ip_port lib (ip addr) (port addr))
          (from_ip_port-not_fault lib (ip addr) (port addr)) p
