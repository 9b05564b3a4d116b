-- ===== src/Main/Cleanup.antt =====
-- What main leaves behind on the local side (src/main.cpp).
use multipath_proxy.Prelude.{
  ℕ, ◌≡◌, refl, ap, ◌∙◌, Bool, true, false, ◌||◌, Option, none, some, ◌==◌, if◌then◌else◌, arith,
  Bool-cases, inl, inr,
}
use multipath_proxy.Outcome.{Outcome, done, throws, fault}
use multipath_proxy.Action.{Action, go_on}
use multipath_proxy.Args.{Args, Mode, local, remote}
use multipath_proxy.Net.SockAddr.{SockAddrIn}
use multipath_proxy.Net.SockAddr.Parse.{Parser}
use multipath_proxy.Net.Socket.{Kernel}
use multipath_proxy.Net.Connection.{Connection, Host}
use multipath_proxy.Net.Connection.Lifetime.{Descriptors, is_open, known, IsTidy, Made}
use multipath_proxy.Net.Connection.Reuse.{destroyed}
use multipath_proxy.Main.Dial.{Post, go_on-Post, IsStable, dial-Post}
use multipath_proxy.Main.{
  Locals, set_ter, set_sat, dial_way, if_enabled, local_ways, ways, try_block, delete, delete_both,
  finish, endpoint, or_terminate, main,
}

module _ (k : Kernel SockAddrIn) (table : Descriptors k) (h : Host k)
    (tidy : IsTidy k table h) where
  -- The descriptor of a pointer.
  abbrev pub has : Option Connection → ℕ → Bool
  has none g = false
  has (some c) g = c.fd == g

  abbrev pub owns : Locals k → ℕ → Bool
  owns s g = has s.ter_connection g || has s.sat_connection g

  -- What is open and registered beyond the start is what the pointers have.
  pub record IsOwned (s : Locals k) : Type 0 where
    pub opens :
        (g : ℕ) → is_open k table s.host g ≡ (if owns s g then true else is_open k table h g)
    pub knows : (g : ℕ) → owns s g ≡ false → known k table s.host g ≡ known k table h g
    pub free : (g : ℕ) → owns s g ≡ true → is_open k table h g ≡ false

  owned-IsTidy : (s : Locals k) → IsOwned s → IsTidy k table s.host
  owned-IsTidy s own g closed = elim (Bool-cases (owns s g)) [
    | inl y ↦ absurd (ground (arith, own.opens g))
    | inr n ↦ own.knows g n ∙ tidy g (ground (arith, own.opens g))
  ]

  deleted :
      (o : Option Connection) (r : Host k) (g : ℕ)
      → (is_open k table (delete k o r) g ≡ (if has o g then false else is_open k table r g))
        × (known k table (delete k o r) g ≡ (if has o g then none else known k table r g))
  deleted none r g = (refl, refl)
  deleted (some c) r g = destroyed k table c r g

  -- main returns 0, and nothing new is open or registered.
  abbrev pub Clean : Outcome ℕ × Host k → Type 0
  Clean (done n, r) =
      (n ≡ 0)
      × ((g : ℕ) → is_open k table r g ≡ is_open k table h g)
      × ((g : ℕ) → known k table r g ≡ known k table h g)
  Clean _ = ⊥

  delete_both-Clean : (s : Locals k) → IsOwned s → Clean (done 0, delete_both k s)
  delete_both-Clean s own = (
    refl,
    λ g.
        let (o1, _) = deleted s.ter_connection s.host g in
        let (o2, _) = deleted s.sat_connection (delete k s.ter_connection s.host) g in
        ground (arith, o1, o2, own.opens g, own.free g),
    λ g.
        let (_, k1) = deleted s.ter_connection s.host g in
        let (_, k2) = deleted s.sat_connection (delete k s.ter_connection s.host) g in
        ground (arith, k1, k2, own.knows g, own.free g, tidy g),
  )

  IsOwned-stable : IsStable k table IsOwned
  IsOwned-stable s w same own = record {
    opens = λ g. same g ∙ own.opens g;
    knows = own.knows;
    free = own.free;
  }

  no_slot : (o : Option Connection) (g : ℕ) → o ≡ none → has o g ≡ false
  no_slot o g e = ap (λ x. has x g) e

  -- A new connection goes to a pointer that was null.
  add_ter :
      (s : Locals k) (c : Connection) (r : Host k) (self : ℕ)
      → IsOwned s
      → s.ter_connection ≡ none
      → Made k table s.host self (done c, r)
      → IsOwned (set_ter k c (record s { host = r }))
  add_ter s c r self own empty (closed, _, opens, knows) = record {
    opens = λ g. ground (arith, opens g, own.opens g, no_slot s.ter_connection g empty);
    knows = λ g e. ground (arith, knows g, own.knows g, no_slot s.ter_connection g empty);
    free = λ g e. ground (arith, own.free g, own.opens g, no_slot s.ter_connection g empty);
  }

  add_sat :
      (s : Locals k) (c : Connection) (r : Host k) (self : ℕ)
      → IsOwned s
      → s.sat_connection ≡ none
      → Made k table s.host self (done c, r)
      → IsOwned (set_sat k c (record s { host = r }))
  add_sat s c r self own empty (closed, _, opens, knows) = record {
    opens = λ g. ground (arith, opens g, own.opens g, no_slot s.sat_connection g empty);
    knows = λ g e. ground (arith, knows g, own.knows g, no_slot s.sat_connection g empty);
    free = λ g e. ground (arith, own.free g, own.opens g, no_slot s.sat_connection g empty);
  }

  unmade-IsOwned :
      (s : Locals k) (r : Host k)
      → IsOwned s
      → ((g : ℕ) → is_open k table r g ≡ is_open k table s.host g)
      → ((g : ℕ) → known k table r g ≡ known k table s.host g)
      → IsOwned (record s { host = r })
  unmade-IsOwned s r own opens knows = record {
    opens = λ g. opens g ∙ own.opens g;
    knows = λ g e. knows g ∙ own.knows g e;
    free = own.free;
  }

  -- With both pointers null, and with the second one null.
  abbrev BothNull : Locals k → Type 0
  BothNull s = IsOwned s × (s.ter_connection ≡ none) × (s.sat_connection ≡ none)

  abbrev SatNull : Locals k → Type 0
  SatNull s = IsOwned s × (s.sat_connection ≡ none)

  SatNull-stable : IsStable k table SatNull
  SatNull-stable s w same (own, empty) = (IsOwned-stable s w same own, empty)

  module _ (lib : Parser) (now : ℕ) where
    ter-Post :
        (on : Bool) (addr : SockAddrIn) (s : Locals k)
        → BothNull s
        → Post SatNull (if_enabled k lib now on (dial_way k lib now 0 (set_ter k) addr) s)
    ter-Post true addr s p =
        dial-Post k table BothNull SatNull SatNull-stable (λ t q. (q.0, q.2))
          (λ t q. owned-IsTidy t q.0) (set_ter k) 0 (λ t c r q m. (add_ter t c r 0 q.0 q.1 m, q.2))
          (λ t r q opens knows. (unmade-IsOwned t r q.0 opens knows, q.2)) lib now addr s p
    ter-Post false addr s p = (p.0, p.2)

    sat-Post :
        (on : Bool) (addr : SockAddrIn) (s : Locals k)
        → SatNull s
        → Post IsOwned (if_enabled k lib now on (dial_way k lib now 1 (set_sat k) addr) s)
    sat-Post true addr s p =
        dial-Post k table SatNull IsOwned IsOwned-stable (λ t q. q.0) (λ t q. owned-IsTidy t q.0)
          (set_sat k) 1 (λ t c r q m. add_sat t c r 1 q.0 q.1 m)
          (λ t r q opens knows. unmade-IsOwned t r q.0 opens knows) lib now addr s p
    sat-Post false addr s p = p.0

    ways-Post :
        (a : Args) (ter sat : SockAddrIn) (s : Locals k)
        → BothNull s
        → Post IsOwned (local_ways k lib now a ter sat s)
    unfolding local_ways
    ways-Post a ter sat s p =
        go_on-Post SatNull IsOwned _ (λ _. if_enabled k lib now a.sat_enabled _)
          (ter-Post a.ter_enabled ter s p) (λ t q. q.0) (λ _ t q. sat-Post a.sat_enabled sat t q)

    -- How main ends, where `serve` is what runs behind the ways: a way fails, and all is as before; or
    -- `serve` starts, and just what the pointers have is open and registered in addition.
    pub data MainEnds (serve : Args → Action (Locals k) (Unit {0})) (a : Args)
        (r : Outcome ℕ × Host k) : Type 0 where
      without_ways : Clean r → MainEnds serve a r
      with_ways : (s : Locals k) → IsOwned s → r ≡ finish k (serve a s) → MainEnds serve a r

    after_ways :
        (serve : Args → Action (Locals k) (Unit {0})) (a : Args) (r : Outcome (Unit {0}) × Locals k)
        → Post IsOwned r
        → MainEnds serve a (finish k (go_on r (λ _. serve a)))
    after_ways serve a (done u, s) own = with_ways s own refl
    after_ways serve a (throws e, s) own = without_ways (delete_both-Clean s own)
    after_ways serve a (fault x, s) own = absurd own

    or_terminate-done :
        {A : Type 0} (o : Outcome A) (x : A) (next : A → Outcome ℕ × Host k)
        → o ≡ done x
        → or_terminate k o h next ≡ next x
    or_terminate-done o x next e = rw e refl

    -- The pointers at the start.
    abbrev start : Locals k
    start = record { host = h; ter_connection = none; sat_connection = none }

    start-BothNull : BothNull start
    start-BothNull = (
      record { opens = λ g. refl; knows = λ g e. refl; free = λ g e. absurd (ground arith) },
      refl,
      refl,
    )

    mode-Post :
        (m : Mode) (a : Args) (ter sat : SockAddrIn)
        → m ≡ local
        → Post IsOwned (ways k lib now m a ter sat start)
    mode-Post local a ter sat e = ways-Post a ter sat start start-BothNull
    mode-Post remote a ter sat e = absurd (ground arith)

    -- On the local side, where the endpoints of the ways that are enabled can be read, whatever
    -- runs behind the ways and whatever system call fails: either a way is not made, and then main
    -- returns 0, just the descriptors that were open before are open, and just the connections
    -- that were registered before are registered; or what runs behind the ways starts, in a state
    -- in which just the descriptors of the connections of the ways are open in addition, under no
    -- other descriptor the registration is changed, and the rest of main is the handler and the
    -- deletes behind it. Nothing is registered at first under a descriptor that is not open.
    pub main-Ends :
        (serve : Args → Action (Locals k) (Unit {0})) (a : Args) (ter sat : SockAddrIn)
        → a.mode ≡ local
        → endpoint k lib now a.ter_enabled a.ter ≡ done ter
        → endpoint k lib now a.sat_enabled a.sat ≡ done sat
        → MainEnds serve a (main k lib now serve a h)
    unfolding main try_block
    main-Ends serve a ter sat mode is_ter is_sat =
        rw
          (
            or_terminate-done (endpoint k lib now a.ter_enabled a.ter) ter _ is_ter,
            or_terminate-done (endpoint k lib now a.sat_enabled a.sat) sat _ is_sat,
          )
          (after_ways serve a (ways k lib now a.mode a ter sat start)
            (mode-Post a.mode a ter sat mode))
