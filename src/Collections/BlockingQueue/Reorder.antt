-- ===== src/Collections/BlockingQueue/Reorder.antt =====
-- The queue sorts: packets that arrive in any order leave it in the order of their ids.
use mathlib.Core.List.{Perm, perm_middle, append-nil, tail}
use mathlib.Core.List.Perm
use multipath_proxy.Prelude.{
  ◌≡◌, refl, sym, ap, ◌∙◌, List, [], ◌∷◌, ◌++◌, map, arith, length, replicate,
}
use multipath_proxy.Outcome.{done}
use multipath_proxy.Packet.FlowPacket.{FlowPacket}
use multipath_proxy.Collections.Sorted.{
  Absent, Small, insert_sorted, insert_sorted-perm, Small-insert_sorted, Consecutive,
  Consecutive-Above, Above-perm-eq,
}
use multipath_proxy.Collections.BlockingQueue.{BlockingQueue, empty_queue, insert, pop}
use multipath_proxy.Collections.BlockingQueue.Invariant.{
  IsValid, insert-IsValid, waits, returns, pop-PopResult,
}
use multipath_proxy.Collections.BlockingQueue.Delivery.{
  Call, inserts, pops, run, AreNew, AreNew-insert_sorted,
}

abbrev pub insert_all : BlockingQueue → List FlowPacket → BlockingQueue
insert_all q [] = q
insert_all q (p ∷ ps) = insert_all (insert p q) ps

run-inserts-append :
    (ps : List FlowPacket) (q : BlockingQueue) (calls : List Call)
    → run q (map inserts ps ++ calls) ≡ run (insert_all q ps) calls
unfolding run
run-inserts-append [] q calls = refl
run-inserts-append (p ∷ ps) q calls = run-inserts-append ps (insert p q) calls

-- BlockingFlowPacketQueue() is valid.
pub empty-IsValid : IsValid empty_queue
empty-IsValid = record { ascending = tt; counted = refl; available = refl }

pub record Filled (q : BlockingQueue) (ps : List FlowPacket) (q' : BlockingQueue) : Type 0 where
  pub valid : IsValid q'
  pub small : Small q'.deque
  pub same : q'.current_id ≡ q.current_id
  pub holds : Perm (q.deque ++ ps) q'.deque

Filled-cons :
    (p : FlowPacket) (ps : List FlowPacket) (q r q' : BlockingQueue)
    → r.deque ≡ insert_sorted p q.deque
    → r.current_id ≡ q.current_id
    → Filled r ps q'
    → Filled q (p ∷ ps) q'
Filled-cons p ps q r q' d c rest = record {
  valid = rest.valid;
  small = rest.small;
  same = rest.same ∙ c;
  holds = Perm.trans (perm_middle q.deque ps) (
      Perm.trans (Perm.append_right ps (Perm.symm (insert_sorted-perm p q.deque)))
        (rw d at rest.holds));
}

pub insert_all-Filled :
    (ps : List FlowPacket) (q : BlockingQueue)
    → IsValid q
    → Small q.deque
    → AreNew q.current_id q.deque ps
    → Filled q ps (insert_all q ps)
insert_all-Filled [] q v s n = record {
  valid = v;
  small = s;
  same = refl;
  holds = rw append-nil (Perm.refl q.deque);
}
insert_all-Filled (p ∷ ps) q v s n =
    let (v', d, c) = insert-IsValid p q v (n.0, n.2) in
    Filled-cons p ps q (insert p q) (insert_all (insert p q) ps) d c (
      insert_all-Filled ps (insert p q) v' (rw d (Small-insert_sorted p q.deque n.1 s))
        (rw (d, c) (AreNew-insert_sorted q.current_id p q.deque ps n.3 n.4)))

run-pops :
    (p : FlowPacket) (q q' last : BlockingQueue) (calls : List Call) (out : List FlowPacket)
    → pop q ≡ done (p, q')
    → run q' calls ≡ done (out, last)
    → run q (pops ∷ calls) ≡ done (p ∷ out, last)
unfolding run
run-pops p q q' last calls out e r = ground (arith, e, r)

-- With nothing missing, each Pop returns, until the queue is empty.
drain :
    (xs : List FlowPacket) (q : BlockingQueue)
    → IsValid q
    → Small q.deque
    → q.deque ≡ xs
    → Consecutive q.current_id xs
    → (last : BlockingQueue) × (run q (replicate (length xs) pops) ≡ done (xs, last))
      × (last.deque ≡ [])
      × IsValid last
drain [] q v s e c = (q, unfold run in refl, e, v)
drain (x ∷ xs) q v s e c = elim (pop-PopResult q v s) [
  | waits _ missing ↦ absurd ((let f : Absent q.current_id (x ∷ xs) = rw e at missing in f.0) c.0)
  | returns p q' popped i d next v' ↦
      let split : p ∷ q'.deque ≡ x ∷ xs = sym d ∙ e in
      let rest : q'.deque ≡ xs = ap tail split in
      let (last, runs, gone, v'') =
        drain xs q' v' (let s' : Small (p ∷ q'.deque) = rw d at s in s'.1) rest (rw next c.1) in
      (
        last,
        run-pops x q q' last (replicate (length xs) pops) xs
            (popped ∙ ap (λ (y : FlowPacket). done (y, q')) (cc split)) runs,
        gone,
        v'',
      )
]

-- Packets with the ids 0, 1, 2, … that arrive at a new queue in any order are returned in the
-- order of their ids by as many Pops, which leave the queue empty and valid; the ids are pairwise
-- distinct and their successors fit 64 bits.
pub run_reorders :
    (xs ps : List FlowPacket)
    → Consecutive 0 xs
    → Perm ps xs
    → AreNew 0 [] ps
    → (last : BlockingQueue) × (run empty_queue (map inserts ps ++ replicate (length xs) pops)
        ≡ done (xs, last))
      × (last.deque ≡ [])
      × IsValid last
run_reorders xs ps c perm n =
    let filled = insert_all-Filled ps empty_queue empty-IsValid tt n in
    let sorted : (insert_all empty_queue ps).deque ≡ xs =
      Above-perm-eq 0 (insert_all empty_queue ps).deque xs
        (rw filled.same at filled.valid.ascending) (Consecutive-Above 0 xs c)
        (Perm.trans (Perm.symm filled.holds) perm) in
    let (last, runs, gone, v) =
      drain xs (insert_all empty_queue ps) filled.valid filled.small sorted (rw filled.same c) in
    (last, run-inserts-append ps empty_queue (replicate (length xs) pops) ∙ runs, gone, v)
