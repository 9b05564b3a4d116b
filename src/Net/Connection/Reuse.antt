-- ===== src/Net/Connection/Reuse.antt =====
-- A descriptor that is closed twice: Close, and then the destructor (src/net/Flow.cpp, ~Flow, over
-- src/net/Connection.h).
use multipath_proxy.Prelude.{refl, ℕ, ◌≡◌, ap, ◌∙◌, false, none, some, ◌==◌, if◌then◌else◌, arith}
use multipath_proxy.Outcome.{Outcome, done, throws, fault}
use multipath_proxy.Action.{go_on, pure}
use multipath_proxy.Collections.ConnectionManager.{find, find-erase, insert_again}
use multipath_proxy.Net.Socket.{Kernel, Answer, ok, failed, or_throw}
use multipath_proxy.Net.Socket
use multipath_proxy.Net.Connection.{Connection, Host, lift_world, destroy, close, of_fd}
use multipath_proxy.Net.Connection.Lifetime.{Descriptors, is_open, known}
use multipath_proxy.Net.Listener.{accept}

module _ {SA : Type 0} (k : Kernel SA) (table : Descriptors k) where
  pub destroyed :
      (c : Connection) (h : Host k) (g : ℕ)
      → (is_open k table (destroy k c h) g ≡ (if c.fd == g then false else is_open k table h g))
        × (known k table (destroy k c h) g ≡ (if c.fd == g then none else known k table h g))
  unfolding destroy Socket.close
  destroyed c h g = (table.close_closes c.fd h.world g, find-erase c.fd g h.connections)

  pub closed :
      (c : Connection) (h : Host k) (g : ℕ)
      → (is_open k table (close k c h) g ≡ (if c.fd == g then false else is_open k table h g))
        × (known k table (close k c h) g ≡ known k table h g)
  unfolding close Socket.close
  closed c h g = (table.close_closes c.fd h.world g, refl)

  -- What accept leaves: a registration that is there already stays.
  Accepts : Connection → Host k → Outcome Connection × Host k → Type 0
  Accepts c h (done d, r) = d.fd ≡ c.fd → known k table r d.fd ≡ some c.self
  Accepts c h (throws e, r) = Unit {0}
  Accepts c h (fault x, r) = Unit {0}

  accept_answer :
      (c : Connection) (h : Host k) (self now : ℕ) (a : Answer (ℕ × SA) × k.World)
      → known k table h c.fd ≡ some c.self
      → Accepts c h (
          go_on
            (lift_world k h (go_on (or_throw k.strerror a) (λ (n, addr). pure n)))
            (of_fd k self now))
  unfolding Accepts of_fd
  accept_answer c h self now (ok (n, addr), w) at = λ same.
      ap (find n) (insert_again n self c.self h.connections (ap (known k table h) same ∙ at))
      ∙ (ap (known k table h) same ∙ at)
  accept_answer c h self now (failed e, w) at = tt

  accept-Accepts :
      (c : Connection) (h : Host k) (self now fd : ℕ)
      → known k table h c.fd ≡ some c.self
      → Accepts c h (accept k self now fd h)
  unfolding accept Socket.accept Socket.accept_from
  accept-Accepts c h self now fd at = accept_answer c h self now (k.accept fd h.world) at

  -- After Close of a registered connection, if accept gives its descriptor to a new connection,
  -- the connection manager still has the old one under it, and the destructor of the old one
  -- closes the descriptor of the new one and leaves it without a registration.
  pub destroy_reused :
      (c d : Connection) (h r : Host k) (self now fd : ℕ)
      → known k table h c.fd ≡ some c.self
      → accept k self now fd (close k c h) ≡ (done d, r)
      → d.fd ≡ c.fd
      → (known k table r d.fd ≡ some c.self)
        × (is_open k table (destroy k c r) d.fd ≡ false)
        × (known k table (destroy k c r) d.fd ≡ none)
  unfolding close Accepts
  destroy_reused c d h r self now fd at e same =
      let (closed, gone) = destroyed c r d.fd in
      let kept = rw e at (accept-Accepts c (close k c h) self now fd at) in
      (kept same, closed ∙ ground arith, gone ∙ ground arith)
