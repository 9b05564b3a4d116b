-- ===== src/Net/Bond/Life.antt =====
-- src/net/Bond.cpp: the constructor of the bond, the teardown when a connection ends, and the
-- destructor.
use multipath_proxy.Prelude.{
  ℕ, ◌+◌, ◌≡◌, Bool, true, false, ◌&&◌, ◌||◌, Option, none, some, List, [], ◌∷◌, if◌then◌else◌,
  arith,
}
use multipath_proxy.Exception.{Exception}
use multipath_proxy.Outcome.{Outcome, done, throws, fault, null_pointer, blocked, ◌>>◌}
use multipath_proxy.Action.{Action, go_on}
use multipath_proxy.Worker.Looper
use multipath_proxy.Worker.Looper.{Looper}

-- TER_ENABLED, SAT_ENABLED and HEARTBEAT_ENABLED.
pub record Ways : Type 0 where
  pub ter_enabled : Bool
  pub sat_enabled : Bool
  pub heartbeat_enabled : Bool

-- The pointers of the bond, none where they are null or were never set, and for a connection whether
-- it can still be shut down; and how often `delete this` was started.
pub record BondParts : Type 0 where
  pub ter_connection : Option Bool
  pub sat_connection : Option Bool
  pub read_from_ter_looper : Option Looper
  pub read_from_sat_looper : Option Looper
  pub heartbeat_looper : Option Looper
  pub deletions : ℕ

-- A looper that is made and started.
abbrev pub started : Option Looper
started = some (Looper.start Looper.new)

-- Bond(…), with the connections that main has made for the ways that are enabled.
unfoldable pub construct : Ways → BondParts
unfolding Looper.start
construct w = record {
  ter_connection = if w.ter_enabled then some true else none;
  sat_connection = if w.sat_enabled then some true else none;
  read_from_ter_looper = if w.ter_enabled then started else none;
  read_from_sat_looper = if w.sat_enabled then started else none;
  heartbeat_looper = if w.sat_enabled && w.heartbeat_enabled then started else none;
  deletions = 0;
}

-- looper->Stop()
abbrev pub stop_looper : Option Looper → Outcome Looper
stop_looper none = fault null_pointer
stop_looper (some l) = done (Looper.stop l)

-- connection->Shutdown(SHUT_RDWR), which may throw.
abbrev pub shut : Option Exception → Option Bool → Outcome Bool
shut fails none = fault null_pointer
shut none (some up) = done false
shut (some e) (some up) = throws e

-- A call, and what it leaves in the bond.
abbrev pub on_bond :
    {A : Type 0}
    → (BondParts → Outcome A)
    → (A → BondParts → BondParts)
    → Action BondParts (Unit {0})
on_bond f set b = elim (f b) [
  | done a ↦ (done tt, set a b)
  | throws e ↦ (throws e, b)
  | fault x ↦ (fault x, b)
]

-- The three calls of Stop, and the thread with `delete this`.
unfoldable pub stop_all : Action BondParts (Unit {0})
unfolding Looper.stop
stop_all b =
    go_on
      (on_bond (λ b. stop_looper b.read_from_ter_looper)
        (λ l b. record b { read_from_ter_looper = some l }) b)
      (λ _ b.
        go_on
          (on_bond (λ b. stop_looper b.read_from_sat_looper)
            (λ l b. record b { read_from_sat_looper = some l }) b)
          (λ _.
            on_bond (λ b. stop_looper b.heartbeat_looper)
              (λ l b. record b { heartbeat_looper = some l; deletions = b.deletions + 1 })))

-- The teardown in RecvFromConnection and SendToConnection, with what the two calls of Shutdown throw.
-- Each reader that finds the end of its stream runs it, so also the one that is woken by the Shutdown
-- of the other.
unfoldable pub teardown : Option Exception → Option Exception → Action BondParts (Unit {0})
unfolding stop_all
teardown fails_ter fails_sat b =
    go_on
      (on_bond (λ b. shut fails_ter b.ter_connection)
        (λ up b. record b { ter_connection = some up }) b)
      (λ _ b.
        go_on
          (on_bond (λ b. shut fails_sat b.sat_connection)
            (λ up b. record b { sat_connection = some up }) b)
          (λ _. stop_all))

-- delete looper, where it is set.
abbrev pub delete_looper : Option Looper → Outcome (Unit {0})
delete_looper none = fault null_pointer
delete_looper (some l) = Looper.destroy l

-- A statement under a condition.
abbrev pub when : Bool → Outcome (Unit {0}) → Outcome (Unit {0})
when true m = m
when false m = done tt

-- ~Bond
unfoldable pub destroy : Ways → BondParts → Outcome (Unit {0})
unfolding Looper.destroy
destroy w b = do
  when w.sat_enabled (
      delete_looper b.read_from_sat_looper
      >> when w.heartbeat_enabled (delete_looper b.heartbeat_looper))
  when w.ter_enabled (delete_looper b.read_from_ter_looper)

-- What the two calls of Shutdown throw, for each thread that runs the teardown, in their order.
abbrev pub Failures : Type 0
Failures = List (Option Exception × Option Exception)

-- One teardown after the other.
unfoldable pub teardowns : Failures → BondParts → BondParts
teardowns [] b = b
teardowns ((f, g) ∷ rest) b = teardowns rest (teardown f g b).1

-- Those in which both calls succeed.
abbrev pub successes : Failures → ℕ
successes [] = 0
successes ((none, none) ∷ rest) = successes rest + 1
successes ((none, some e) ∷ rest) = successes rest
successes ((some e, g) ∷ rest) = successes rest

abbrev full : Bool → Bool → Looper → Looper → Looper → ℕ → BondParts
full ter sat read_ter read_sat beat n = record {
  ter_connection = some ter;
  sat_connection = some sat;
  read_from_ter_looper = some read_ter;
  read_from_sat_looper = some read_sat;
  heartbeat_looper = some beat;
  deletions = n;
}

destroy-construct :
    (w : Ways)
    → destroy w (construct w) ≡ (if w.ter_enabled || w.sat_enabled then fault blocked else done tt)
unfolding construct destroy Looper.start Looper.destroy
destroy-construct w = ground arith
