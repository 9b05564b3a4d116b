-- ===== src/Net/Flow/Missed.antt =====
-- A flow that is never deleted: both senders of src/net/Flow.cpp test `closed_` before either sets it.
use mathlib.Core.Path.{subst}
use multipath_proxy.Prelude.{
  ℕ, ◌≡◌, refl, sym, Bool, true, false, List, [], ◌∷◌, Option, arith, if◌then◌else◌,
}
use multipath_proxy.Exception.{Exception}
use multipath_proxy.Outcome.{
  blocked, still_running, assertion, out_of_bounds, null_pointer, terminated,
}
use multipath_proxy.Packet.Buffer.{Allocator}
use multipath_proxy.Packet.FlowPacket.{FlowPacket}
use multipath_proxy.Net.SockAddr.{SockAddrIn}
use multipath_proxy.Net.Transport.{RecvResult}
use multipath_proxy.Net.Flow
use multipath_proxy.Net.Flow.{
  CloseAt, quiet, testing, tested, ended, Flow, Handled, returned, raised, crashed, after,
  write_to_flow, queue_packet, close_or_queue, recv_from_connection, send_to_connection, settle,
  choose_path, lose_packet, unless_fails, Round, send_to_bond, close_send, close_bond, Event,
  writes, receives, drains, forwards, closes_send, closes_bond, step, go_on, run,
}
use multipath_proxy.Net.Flow.Orderly.{is_quiet, deletions_by, Orderly, Fine}
use multipath_proxy.Net.Flow.Closing.{Fits16, Fits16-head, Fine-step, run-Fine, make-Orderly}

-- The sender has seen that `closed_` is not set.
abbrev pub has_missed : CloseAt → Bool
has_missed (tested p false) = true
has_missed (ended false) = true
has_missed _ = false

abbrev BothMissed : Flow → Type 0
BothMissed s = (has_missed s.send_close ≡ true) × (has_missed s.bond_close ≡ true)

abbrev Misses : Handled → Type 0
Misses (returned s) = BothMissed s
Misses (raised s e) = BothMissed s
Misses (crashed x) = Unit {0}

missed_off : (b : Bool) (c : CloseAt) → has_missed c ≡ true → b ≡ is_quiet c → b ≡ false
missed_off b quiet m e = absurd cc
missed_off b (testing p) m e = e
missed_off b (tested p x) m e = e
missed_off b (ended x) m e = e

Misses-recv_from_connection :
    (heap : Allocator) (r : RecvResult) (s : Flow)
    → BothMissed s
    → Misses (recv_from_connection heap r s)
unfolding recv_from_connection after close_or_queue queue_packet
Misses-recv_from_connection heap r s m = ground arith

Misses-close_send :
    (fails : Option Exception) (c : CloseAt) (s : Flow)
    → s.send_close ≡ c
    → BothMissed s
    → Misses (close_send fails c s)
unfolding close_send
Misses-close_send fails c s e m = ground arith

Misses-close_bond :
    (fails : Option Exception) (c : CloseAt) (s : Flow)
    → s.bond_close ≡ c
    → BothMissed s
    → Misses (close_bond fails c s)
unfolding close_bond
Misses-close_bond fails c s e m = ground arith

Misses-if :
    (b : Bool) (h : Handled) (s : Flow)
    → Misses h
    → BothMissed s
    → Misses (if b then h else returned s)
Misses-if true h s m n = m
Misses-if false h s m n = n

-- A sender that has missed has found its close packet, so its looper is stopped.
Misses-step :
    (heap : Allocator) (e : Event) (s : Flow) → Orderly s → BothMissed s → Misses (step heap e s)
unfolding step write_to_flow
Misses-step heap (writes p) s v m = m
Misses-step heap (receives r) s v m =
    Misses-if s.recv_running _ s (Misses-recv_from_connection heap r s m) m
Misses-step heap (drains r) s v m =
    let off = missed_off s.send_running s.send_close m.0 v.sends in rw off m
Misses-step heap (forwards r) s v m =
    let off = missed_off s.bond_running s.bond_close m.1 v.bonds in rw off m
Misses-step heap (closes_send fails) s v m = Misses-close_send fails s.send_close s refl m
Misses-step heap (closes_bond fails) s v m = Misses-close_bond fails s.bond_close s refl m

-- What a run comes to where no sender deletes the flow any more.
abbrev pub Survives : Handled → Type 0
Survives (returned s) = s.deletions ≡ 0
Survives (raised s e) = s.deletions ≡ 0
Survives (crashed x) = Unit {0}

no_deletions : (c : CloseAt) → has_missed c ≡ true → deletions_by c ≡ 0
no_deletions quiet m = refl
no_deletions (testing p) m = refl
no_deletions (tested p b) m = refl
no_deletions (ended false) m = refl
no_deletions (ended true) m = absurd cc

Survives-go_on :
    (h : Handled) (s : Flow) (k : Flow → Handled)
    → Fine h
    → Misses h
    → Orderly s
    → BothMissed s
    → ((t : Flow) → Orderly t → BothMissed t → Survives (k t))
    → Survives (go_on h s k)
unfolding go_on
Survives-go_on (returned t) s k v m w n f = f t v m
Survives-go_on (raised t e) s k v m w n f = f t v m
Survives-go_on (crashed assertion) s k v m w n f = tt
Survives-go_on (crashed out_of_bounds) s k v m w n f = tt
Survives-go_on (crashed null_pointer) s k v m w n f = tt
Survives-go_on (crashed blocked) s k v m w n f = f s w n
Survives-go_on (crashed terminated) s k v m w n f = tt
Survives-go_on (crashed still_running) s k v m w n f = tt

missed-Survives :
    (heap : Allocator) (es : List Event) (s : Flow)
    → Fits16 es
    → Orderly s
    → BothMissed s
    → Survives (run heap s es)
unfolding run
missed-Survives heap [] s f v m =
    omega (arith, v.counted, no_deletions s.send_close m.0, no_deletions s.bond_close m.1)
missed-Survives heap (e ∷ es) s f v m =
    let (now_, later) = Fits16-head e es f in
    Survives-go_on (step heap e s) s (λ t. run heap t es) (Fine-step heap e s now_ v)
      (Misses-step heap e s v m) v m (λ t w n. missed-Survives heap es t later w n)

-- Both senders test `closed_`, which nothing has set.
both_test :
    (heap : Allocator) (fails fails' : Option Exception) (p q : FlowPacket) (s : Flow)
    → Orderly s
    → s.send_close ≡ testing p
    → s.bond_close ≡ testing q
    → (t : Flow) × Orderly t
      × BothMissed t
      × ((es : List Event)
          → run heap s (closes_send fails ∷ closes_bond fails' ∷ es) ≡ run heap t es)
unfolding run step close_send close_bond go_on
both_test heap fails fails' p q s v e e' =
    let open_ : s.closed ≡ false = ground (arith, v.marked, e, e') in
    let t : Flow = record s { send_close = tested p false; bond_close = tested q false } in
    (t, ground arith, (refl, refl), λ es. rw (e, e', open_) refl)

-- After any run of a new flow that leaves both senders behind a close packet and in front of their
-- tests of `closed_`: if both test it before either goes on, the flow is not deleted, whatever
-- follows.
pub never_deleted :
    (heap : Allocator) (source destination : SockAddrIn) (backlog : ℕ) (es : List Event) (s : Flow)
    → Fits16 es
    → run heap (Flow.make source destination backlog) es ≡ returned s
    → (p q : FlowPacket) → s.send_close ≡ testing p
    → s.bond_close ≡ testing q
    → (fails fails' : Option Exception) (fs : List Event) → Fits16 fs
    → Survives (run heap s (closes_send fails ∷ closes_bond fails' ∷ fs))
never_deleted heap source destination backlog es s f runs p q e e' fails fails' fs g =
    let v : Orderly s = subst Fine runs (
      run-Fine heap es (Flow.make source destination backlog) f
        (make-Orderly source destination backlog)) in
    let (t, w, m, goes) = both_test heap fails fails' p q s v e e' in
    subst Survives (sym (goes fs)) (missed-Survives heap fs t g w m)
