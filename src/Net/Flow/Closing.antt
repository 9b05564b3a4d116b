-- ===== src/Net/Flow/Closing.antt =====
-- How a flow is closed: in every order of events the flow is deleted at most once.
use multipath_proxy.Prelude.{
  ℕ, ◌≤◌, ◌+◌, ◌≡◌, ◌≢◌, ◌⊎◌, false, true, refl, inl, inr, List, [], ◌∷◌, arith,
}
use multipath_proxy.Outcome.{
  blocked, still_running, assertion, out_of_bounds, null_pointer, terminated,
}
use multipath_proxy.Packet.Buffer.{Allocator}
use multipath_proxy.Net.SockAddr.{SockAddrIn}
use multipath_proxy.Net.Flow
use multipath_proxy.Net.Flow.{
  CloseAt, quiet, testing, tested, ended, preload_limit, read_size, Flow, Handled, returned, raised,
  crashed, write_to_flow, bytes_read, Event, writes, receives, drains, forwards, closes_send,
  closes_bond, step, go_on, run,
}
use multipath_proxy.Net.Flow.Orderly.{
  Orderly, deletions_by, has_seen, has_marked, Fine, Fine-if, Fine-recv_from_connection,
}
use multipath_proxy.Net.Flow.Senders.{
  Fine-send_to_connection, Fine-send_to_bond, Fine-close_send, Fine-close_bond,
}

-- What recv gives fits the buffer that it is asked to fill.
abbrev pub Fits16 : List Event → Type 0
Fits16 [] = Unit {0}
Fits16 (writes p ∷ es) = Fits16 es
Fits16 (receives r ∷ es) = (bytes_read r ≤ read_size) × Fits16 es
Fits16 (drains r ∷ es) = Fits16 es
Fits16 (forwards r ∷ es) = Fits16 es
Fits16 (closes_send fails ∷ es) = Fits16 es
Fits16 (closes_bond fails ∷ es) = Fits16 es

pub Fine-step :
    (heap : Allocator) (e : Event) (s : Flow) → Fits16 (e ∷ []) → Orderly s → Fine (step heap e s)
unfolding step write_to_flow
Fine-step heap (writes p) s f v = ground arith
Fine-step heap (receives r) s f v =
    Fine-if s.recv_running _ _ (λ _. Fine-recv_from_connection heap r s (omega (arith, f.0)) v)
      (λ _. v)
Fine-step heap (drains r) s f v =
    Fine-if s.send_running _ _ (λ on. Fine-send_to_connection r s on v) (λ _. v)
Fine-step heap (forwards r) s f v =
    Fine-if s.bond_running _ _ (λ on. Fine-send_to_bond r s on v) (λ _. v)
Fine-step heap (closes_send fails) s f v = Fine-close_send s v fails s.send_close refl
Fine-step heap (closes_bond fails) s f v = Fine-close_bond s v fails s.bond_close refl

pub Fits16-head : (e : Event) (es : List Event) → Fits16 (e ∷ es) → Fits16 (e ∷ []) × Fits16 es
Fits16-head (writes p) es f = (tt, f)
Fits16-head (receives r) es f = ((f.0, tt), f.1)
Fits16-head (drains r) es f = (tt, f)
Fits16-head (forwards r) es f = (tt, f)
Fits16-head (closes_send fails) es f = (tt, f)
Fits16-head (closes_bond fails) es f = (tt, f)

Fine-go_on :
    (h : Handled) (s : Flow) (k : Flow → Handled)
    → Fine h
    → Orderly s
    → ((t : Flow) → Orderly t → Fine (k t))
    → Fine (go_on h s k)
unfolding go_on
Fine-go_on (returned t) s k v w f = f t v
Fine-go_on (raised t e) s k v w f = f t v
Fine-go_on (crashed assertion) s k v w f = v
Fine-go_on (crashed out_of_bounds) s k v w f = v
Fine-go_on (crashed null_pointer) s k v w f = v
Fine-go_on (crashed blocked) s k v w f = f s w
Fine-go_on (crashed terminated) s k v w f = v
Fine-go_on (crashed still_running) s k v w f = v

-- From an orderly flow on, in every order of events.
pub run-Fine :
    (heap : Allocator) (es : List Event) (s : Flow) → Fits16 es → Orderly s → Fine (run heap s es)
unfolding run
run-Fine heap [] s f v = v
run-Fine heap (e ∷ es) s f v =
    let (now_, later) = Fits16-head e es f in
    Fine-go_on (step heap e s) s (λ t. run heap t es) (Fine-step heap e s now_ v) v
      (λ t w. run-Fine heap es t later w)

pub make-Orderly :
    (source destination : SockAddrIn) (backlog : ℕ) → Orderly (Flow.make source destination backlog)
make-Orderly source destination backlog = record {
  sends = refl;
  bonds = refl;
  marked = refl;
  send_sees = inl refl;
  bond_sees = inl refl;
  counted = refl;
  feeding = inr tt;
  fed = inl refl;
}

one_has_seen :
    (c d : CloseAt)
    → (has_seen c ≡ false) ⊎ (has_marked d ≡ true)
    → deletions_by c + deletions_by d ≤ 1
one_has_seen quiet d h = ground arith
one_has_seen (testing p) d h = ground arith
one_has_seen (tested p b) d h = ground arith
one_has_seen (ended b) d h = ground arith

-- How a run ends: the flow is orderly and not deleted twice, and no looper was left behind.
abbrev pub ClosesOnce : Handled → Type 0
ClosesOnce (returned s) = Orderly s × (s.deletions ≤ 1)
ClosesOnce (raised s e) = Orderly s × (s.deletions ≤ 1)
ClosesOnce (crashed x) = x ≢ still_running

Orderly-once : (s : Flow) → Orderly s → s.deletions ≤ 1
Orderly-once s v = rw v.counted (one_has_seen s.send_close s.bond_close v.send_sees)

Fine-ClosesOnce : (h : Handled) → Fine h → ClosesOnce h
Fine-ClosesOnce (returned s) v = (v, Orderly-once s v)
Fine-ClosesOnce (raised s e) v = (v, Orderly-once s v)
Fine-ClosesOnce (crashed x) v = v

-- A new flow, whatever packets, reads and sends follow in whatever order, with reads of at most
-- 1024 bytes, also between the accesses of its two senders to `closed_`: the assertion before
-- `delete this` that all loopers are stopped never fails, and after a run that does not crash
-- otherwise the flow is deleted at most once, and orderly: a sender runs until it finds a close
-- packet, `closed_` says that a sender has set it behind one, a sender deletes the flow just when
-- it has seen what the other has set, and no close packet waits for the bond while the endpoint is
-- read.
pub run-ClosesOnce :
    (heap : Allocator) (source destination : SockAddrIn) (backlog : ℕ) (es : List Event)
    → Fits16 es
    → ClosesOnce (run heap (Flow.make source destination backlog) es)
run-ClosesOnce heap source destination backlog es f = Fine-ClosesOnce _ (
    run-Fine heap es (Flow.make source destination backlog) f
      (make-Orderly source destination backlog))
