-- ===== src/Net/Proxy/Life.antt =====
-- src/net/Proxy.cpp: the constructor and the destructor of the proxy.
use multipath_proxy.Prelude.{ℕ, ◌≡◌, refl, ◌++◌, true}
use multipath_proxy.Outcome.{Outcome, done, throws, fault, blocked, terminated}
use multipath_proxy.Text.{Text, codes, decimal}
use multipath_proxy.Action.{Action, pure, ◌>>=◌, ◌>>◌, go_on}
use multipath_proxy.Worker.Looper
use multipath_proxy.Worker.Looper.{Looper}
use multipath_proxy.Net.SockAddr
use multipath_proxy.Net.SockAddr.{SockAddrIn}
use multipath_proxy.Net.Socket
use multipath_proxy.Net.Socket.{Kernel, Answer, ok, failed, or_throw}
use multipath_proxy.Net.Connection.{Host, on_socket, lift_world, close_socket}
use multipath_proxy.Net.Tcp.Ipv4.{make_listener, get_sock_name}

-- `listener_`, by its descriptor, and `acceptLooper_`.
pub record ProxyParts : Type 0 where
  pub listener : ℕ
  pub accept_looper : Looper

-- IPPROTO_IP and IP_TRANSPARENT
abbrev pub ipproto_ip : ℕ
ipproto_ip = 0

abbrev pub ip_transparent : ℕ
ip_transparent = 19

-- An exception in the body of the constructor: the looper is destroyed, and the exception goes on if
-- that succeeds. An exception out of the destructor is a fault already.
abbrev pub destroy_member : {S A : Type 0} → Outcome (Unit {0}) → Outcome A × S → Outcome A × S
destroy_member (fault x) (throws e, s) = (fault x, s)
destroy_member m r = r

module _ (k : Kernel SockAddrIn) where
  -- The body, with the looper that is not started yet.
  unfoldable pub set_up : ℕ → Action (Host k) ProxyParts
  unfolding Looper.start
  set_up fd = do
    on_socket k (Socket.set_sock_opt k fd ipproto_ip ip_transparent 1)
    pure (record { listener = fd; accept_looper = Looper.start Looper.new })

  -- Proxy(…). The pointer to the listener is not freed when the body throws.
  unfoldable pub construct : SockAddrIn → Action (Host k) ProxyParts
  unfolding set_up Looper.destroy
  construct addr = do
    fd ← make_listener k addr
    λ h. destroy_member (Looper.destroy Looper.new) (set_up fd h)

  -- ~Proxy, and behind it the one of the looper.
  unfoldable pub destroy : ProxyParts → Action (Host k) (Unit {0})
  unfolding Looper.destroy
  destroy p h = (Looper.destroy p.accept_looper, close_socket k p.listener h)

  -- ToString
  unfoldable pub to_string : ProxyParts → Action (Host k) Text
  to_string p = do
    addr ← on_socket k (get_sock_name k p.listener)
    pure (
        codes "Proxy[fd="
        ++ (decimal p.listener ++ (codes ", sockAddr=" ++ (SockAddr.to_string addr ++ codes "]"))))

  -- Either the program ends in the constructor, or there is a proxy whose destructor waits for ever.
  pub Ends : Outcome ProxyParts × Host k → Type 0
  Ends (done p, h) = destroy p h ≡ (fault blocked, close_socket k p.listener h)
  Ends (throws e, h) = ⊥
  Ends (fault x, h) = x ≡ terminated

  set_up_answer :
      (fd : ℕ) (a : Answer (Unit {0}) × k.World) (h : Host k)
      → Ends (
          destroy_member (fault terminated) (
            go_on (lift_world k h (or_throw k.strerror a)) (λ _. pure (record {
              listener = fd;
              accept_looper = record { running = true; has_thread = true };
            }))))
  unfolding Ends destroy Looper.destroy
  set_up_answer fd (ok u, w) h = refl
  set_up_answer fd (failed e, w) h = refl

  -- Once its listener is made, the constructor of the proxy either ends the program, in the
  -- destructor of a looper that was not started, or gives a proxy whose destructor closes the
  -- listener and then waits for ever.
  pub construct-Ends :
      (addr : SockAddrIn) (fd : ℕ) (h r : Host k)
      → make_listener k addr h ≡ (done fd, r)
      → Ends (construct addr h)
  unfolding construct set_up Looper.start Looper.destroy Socket.set_sock_opt
  construct-Ends addr fd h r e =
      rw e (set_up_answer fd (k.setsockopt fd ipproto_ip ip_transparent 1 r.world) r)
