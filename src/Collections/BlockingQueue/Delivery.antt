-- ===== src/Collections/BlockingQueue/Delivery.antt =====
-- Whatever the order in which packets arrive, and however Inserts and Pops alternate, the queue
-- hands the packets out by consecutive ids, and loses and invents none.
use mathlib.Core.List.{Perm, perm_middle, append-nil}
use mathlib.Core.List.Perm
use multipath_proxy.Prelude.{
  ℕ, ◌+◌, ◌^◌, ◌≤◌, ◌<◌, ◌≡◌, refl, sym, List, [], ◌∷◌, ◌++◌, arith, length,
}
use multipath_proxy.Outcome.{Outcome, done, throws, fault, blocked, Fault, ◌>>=◌}
use multipath_proxy.Packet.FlowPacket.{FlowPacket, id}
use multipath_proxy.Collections.Sorted.{
  Absent, Small, insert_sorted, insert_sorted-perm, Absent-insert_sorted, Small-insert_sorted,
  Consecutive,
}
use multipath_proxy.Collections.BlockingQueue.{BlockingQueue, insert, pop}
use multipath_proxy.Collections.BlockingQueue.Invariant.{
  IsValid, insert-IsValid, waits, returns, pop-PopResult,
}

-- A call of Insert, or an attempt of the consumer to Pop.
pub data Call : Type 0 where
  inserts : FlowPacket → Call
  pops : Call

-- The calls in order, and the packets that the Pops return. An attempt that has to wait returns
-- nothing and leaves the queue to the next call.
unfoldable pub run : BlockingQueue → List Call → Outcome (List FlowPacket × BlockingQueue)
run q [] = done ([], q)
run q (inserts p ∷ calls) = run (insert p q) calls
run q (pops ∷ calls) = elim (pop q) [
  | done (p, q') ↦ do (out, last) ← run q' calls; done (p ∷ out, last)
  | throws e ↦ throws e
  | fault Fault.blocked ↦ run q calls
  | fault x ↦ fault x
]

abbrev pub arrivals : List Call → List FlowPacket
arrivals [] = []
arrivals (inserts p ∷ calls) = p ∷ arrivals calls
arrivals (pops ∷ calls) = arrivals calls

-- The packets have ids from `c` on that are pairwise distinct and not in the deque.
abbrev pub AreNew : ℕ → List FlowPacket → List FlowPacket → Type 0
AreNew c deque [] = Unit {0}
AreNew c deque (p ∷ ps) =
    (c ≤ id p) × (id p + 1 < 2 ^ 64) × Absent (id p) deque × Absent (id p) ps × AreNew c deque ps

pub AreNew-insert_sorted :
    (c : ℕ) (p : FlowPacket) (deque ps : List FlowPacket)
    → Absent (id p) ps
    → AreNew c deque ps
    → AreNew c (insert_sorted p deque) ps
AreNew-insert_sorted c p deque [] f n = tt
AreNew-insert_sorted c p deque (r ∷ ps) f n = (
  n.0,
  n.1,
  Absent-insert_sorted (id r) p deque (λ e. f.0 (sym e)) n.2,
  n.3,
  AreNew-insert_sorted c p deque ps f.1 n.4,
)

pub AreNew-tail :
    (c : ℕ) (p : FlowPacket) (deque ps : List FlowPacket)
    → id p ≡ c
    → AreNew c (p ∷ deque) ps
    → AreNew (c + 1) deque ps
AreNew-tail c p deque [] e n = tt
AreNew-tail c p deque (r ∷ ps) e n =
    (omega (arith, n.2.0), n.1, n.2.1, n.3, AreNew-tail c p deque ps e n.4)

-- What a run from `q` comes to.
pub record Delivered (q : BlockingQueue) (calls : List Call) : Type 0 where
  pub out : List FlowPacket
  pub last : BlockingQueue
  pub runs : run q calls ≡ done (out, last)
  pub in_order : Consecutive q.current_id out
  pub advanced : last.current_id ≡ q.current_id + length out
  pub conserved : Perm (q.deque ++ arrivals calls) (out ++ last.deque)
  pub valid : IsValid last
  pub small : Small last.deque

-- The step cases of the induction below.
run-inserts :
    (p : FlowPacket) (q : BlockingQueue) (calls : List Call)
    → (insert p q).deque ≡ insert_sorted p q.deque
    → (insert p q).current_id ≡ q.current_id
    → Delivered (insert p q) calls
    → Delivered q (inserts p ∷ calls)
unfolding run
run-inserts p q calls d c r = record {
  out = r.out;
  last = r.last;
  runs = r.runs;
  in_order = rw c at r.in_order;
  advanced = omega (arith, r.advanced);
  conserved = Perm.trans (perm_middle q.deque (arrivals calls)) (
      Perm.trans (Perm.append_right (arrivals calls) (Perm.symm (insert_sorted-perm p q.deque)))
        (rw d at r.conserved));
  valid = r.valid;
  small = r.small;
}

run-returns :
    (p : FlowPacket) (q q' : BlockingQueue) (calls : List Call)
    → pop q ≡ done (p, q')
    → id p ≡ q.current_id
    → q.deque ≡ p ∷ q'.deque
    → q'.current_id ≡ q.current_id + 1
    → Delivered q' calls
    → Delivered q (pops ∷ calls)
unfolding run
run-returns p q q' calls e i d c r = record {
  out = p ∷ r.out;
  last = r.last;
  runs = ground (arith, e, r.runs);
  in_order = (i, rw c at r.in_order);
  advanced = omega (arith, r.advanced);
  conserved = rw d (Perm.cons p r.conserved);
  valid = r.valid;
  small = r.small;
}

run-waits :
    (q : BlockingQueue) (calls : List Call)
    → pop q ≡ fault blocked
    → Delivered q calls
    → Delivered q (pops ∷ calls)
unfolding run
run-waits q calls e r = record {
  out = r.out;
  last = r.last;
  runs = ground (arith, e, r.runs);
  in_order = r.in_order;
  advanced = r.advanced;
  conserved = r.conserved;
  valid = r.valid;
  small = r.small;
}

-- From a valid queue, any calls of Insert and Pop whose packets have ids that are new, pairwise
-- distinct and with successors that fit 64 bits run without a fault: the packets that the Pops
-- return have the ids that follow one another from the next id on, none is lost or made up, and
-- the queue stays valid.
pub run-Delivered :
    (calls : List Call) (q : BlockingQueue)
    → IsValid q
    → Small q.deque
    → AreNew q.current_id q.deque (arrivals calls)
    → Delivered q calls
run-Delivered [] q v s n = record {
  out = [];
  last = q;
  runs = unfold run in refl;
  in_order = tt;
  advanced = omega arith;
  conserved = rw append-nil (Perm.refl q.deque);
  valid = v;
  small = s;
}
run-Delivered (inserts p ∷ calls) q v s n =
    let (v', d, c) = insert-IsValid p q v (n.0, n.2) in
    run-inserts p q calls d c (
      run-Delivered calls (insert p q) v' (rw d (Small-insert_sorted p q.deque n.1 s))
        (rw (d, c) (AreNew-insert_sorted q.current_id p q.deque (arrivals calls) n.3 n.4)))
run-Delivered (pops ∷ calls) q v s n = elim (pop-PopResult q v s) [
  | waits e _ ↦ run-waits q calls e (run-Delivered calls q v s n)
  | returns p q' e i d c v' ↦ run-returns p q q' calls e i d c (
      run-Delivered calls q' v' (let s' : Small (p ∷ q'.deque) = rw d at s in s'.1)
        (rw c (AreNew-tail q.current_id p q'.deque (arrivals calls) i (rw d at n))))
]
