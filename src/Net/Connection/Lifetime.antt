-- ===== src/Net/Connection/Lifetime.antt =====
-- Descriptors and registrations over the life of a connection (src/net/Connection.h).
use multipath_proxy.Prelude.{
  ℕ, ◌≡◌, refl, ◌∙◌, Bool, true, false, Option, none, some, ◌==◌, if◌then◌else◌, arith,
}
use multipath_proxy.Outcome.{Outcome, done, throws, fault}
use multipath_proxy.Action.{pure, go_on, unwind}
use multipath_proxy.Text.{codes}
use multipath_proxy.Collections.ConnectionManager.{find, find-insert, find-erase}
use multipath_proxy.Net.Socket.{
  Kernel, Answer, ok, failed, or_throw, new_socket, connect, set_sock_opt,
}
use multipath_proxy.Net.Socket
use multipath_proxy.Net.Connection.{
  Connection, Host, fresh_connection, lift_world, destroy, set_up, new, dial, make, register,
  close_socket,
}

-- What the system calls do to the table of descriptors.
pub record Descriptors {SA : Type 0} (k : Kernel SA) : Type 1 where
  pub open_at : k.World → ℕ → Bool
  pub socket_ok :
      (d t p fd : ℕ) (w w' : k.World)
      → k.socket d t p w ≡ (ok fd, w')
      → (open_at w fd ≡ false) × ((g : ℕ) → open_at w' g ≡ (if fd == g then true else open_at w g))
  pub socket_failed :
      (d t p e : ℕ) (w w' : k.World)
      → k.socket d t p w ≡ (failed e, w')
      → (g : ℕ) → open_at w' g ≡ open_at w g
  pub setsockopt_keeps :
      (fd l n v : ℕ) (w : k.World) (g : ℕ) → open_at (k.setsockopt fd l n v w).1 g ≡ open_at w g
  pub connect_keeps :
      (fd : ℕ) (a : SA) (w : k.World) (g : ℕ) → open_at (k.connect fd a w).1 g ≡ open_at w g
  pub close_closes :
      (fd : ℕ) (w : k.World) (g : ℕ)
      → open_at (k.close fd w).1 g ≡ (if fd == g then false else open_at w g)

module _ {SA : Type 0} (k : Kernel SA) (table : Descriptors k) where
  open table use {open_at}

  abbrev pub is_open : Host k → ℕ → Bool
  is_open h fd = open_at h.world fd

  abbrev pub known : Host k → ℕ → Option ℕ
  known h fd = find fd h.connections

  -- What is not open is not registered.
  abbrev pub IsTidy : Host k → Type 0
  IsTidy h = (fd : ℕ) → is_open h fd ≡ false → known h fd ≡ none

  -- A new connection, open and registered, with all others as they were; or an exception, with
  -- everything as it was.
  abbrev pub Made : Host k → ℕ → Outcome Connection × Host k → Type 0
  Made h self (done c, r) =
      (is_open h c.fd ≡ false)
      × (c.self ≡ self)
      × ((g : ℕ) → is_open r g ≡ (if c.fd == g then true else is_open h g))
      × ((g : ℕ) → known r g ≡ (if c.fd == g then some self else known h g))
  Made h self (throws e, r) =
      ((g : ℕ) → is_open r g ≡ is_open h g) × ((g : ℕ) → known r g ≡ known h g)
  Made h self (fault x, r) = ⊥

  -- The descriptor is open, and nothing is registered under it.
  abbrev Opened : Host k → ℕ → Host k → Type 0
  Opened h fd r =
      (is_open h fd ≡ false)
      × ((g : ℕ) → is_open r g ≡ (if fd == g then true else is_open h g))
      × ((g : ℕ) → known r g ≡ known h g)

  module _ (h : Host k) (tidy : IsTidy h) (self : ℕ) where
    dialled :
        (c : Connection) (r : Host k) (a : Answer (Unit {0}) × k.World)
        → Made h self (done c, r)
        → ((g : ℕ) → open_at a.1 g ≡ is_open r g)
        → Made h self
            (go_on (unwind (lift_world k r (or_throw k.strerror a)) (destroy k c)) (λ _. pure c))
    unfolding destroy Socket.close
    dialled c r (ok u, w) (free, at, opens, knows) keeps = (free, at, λ g. keeps g ∙ opens g, knows)
    dialled c r (failed e, w) (free, at, opens, knows) keeps = (
      λ g. ground (arith, table.close_closes c.fd w g, keeps g, opens g),
      λ g. ground (arith, find-erase c.fd g r.connections, knows g, tidy g),
    )

    dial-Made :
        (peer : SA) (c : Connection) (r : Host k)
        → Made h self (done c, r)
        → Made h self (dial k peer c r)
    unfolding dial connect
    dial-Made peer c r made =
        dialled c r (k.connect c.fd peer r.world) made (table.connect_keeps c.fd peer r.world)

    set_up_answer :
        (now fd : ℕ) (r : Host k) (a : Answer (Unit {0}) × k.World)
        → Opened h fd r
        → ((g : ℕ) → open_at a.1 g ≡ is_open r g)
        → Made h self (
            go_on (unwind (lift_world k r (or_throw k.strerror a)) (close_socket k fd)) (λ _ s.
              go_on
                (register k (fresh_connection self fd now) s)
                (λ _. pure (fresh_connection self fd now))))
    unfolding Socket.close
    set_up_answer now fd r (ok u, w) (free, opens, knows) keeps = (
      free,
      refl,
      λ g. keeps g ∙ opens g,
      λ g. find-insert fd self g r.connections (knows fd ∙ tidy fd free) ∙ ground (arith, knows g),
    )
    set_up_answer now fd r (failed e, w) (free, opens, knows) keeps =
        (λ g. ground (arith, table.close_closes fd w g, keeps g, opens g), λ g. knows g)

    set_up-Made : (now fd : ℕ) (r : Host k) → Opened h fd r → Made h self (set_up k self now fd r)
    unfolding set_up set_sock_opt
    set_up-Made now fd r opened =
        set_up_answer now fd r (k.setsockopt fd _ _ _ r.world) opened
          (table.setsockopt_keeps fd _ _ _ r.world)

    new_answer :
        (domain now : ℕ) (a : Answer ℕ × k.World)
        → k.socket domain 1 0 h.world ≡ a
        → Made h self (
            go_on
              (lift_world k h (or_throw (Socket.errno_text k.strerror (codes "Connect failed.")) a))
              (set_up k self now))
    new_answer domain now (ok fd, w) e =
        let (free, opens) = table.socket_ok domain 1 0 fd h.world w e in
        set_up-Made now fd (record h { world = w }) (free, opens, λ g. refl)
    new_answer domain now (failed n, w) e =
        (table.socket_failed domain 1 0 n h.world w e, λ g. refl)

    new-Made : (domain now : ℕ) → Made h self (new k domain self now h)
    unfolding new new_socket
    new-Made domain now = new_answer domain now (k.socket domain 1 0 h.world) refl

    make_answer :
        (peer : SA) (o : Outcome Connection × Host k)
        → Made h self o
        → Made h self (go_on o (dial k peer))
    make_answer peer (done c, r) made = dial-Made peer c r made
    make_answer peer (throws e, r) made = made
    make_answer peer (fault x, r) made = made

    -- Where nothing is registered under a descriptor that is not open, TcpConnection::make either
    -- gives a connection with a descriptor that was not open, open and registered, with all other
    -- descriptors and registrations as they were, or throws, with all of them as they were.
    pub make-Made : (domain now : ℕ) (peer : SA) → Made h self (make k domain self now peer h)
    unfolding make
    make-Made domain now peer = make_answer peer (new k domain self now h) (new-Made domain now)
