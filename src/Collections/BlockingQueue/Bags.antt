-- ===== src/Collections/BlockingQueue/Bags.antt =====
-- A new queue that packets are inserted into is the bag of these packets: the order in which they
-- come is forgotten, and nothing else.
use mathlib.Core.Equiv.{IsEquiv, Iso, iso_to_equiv}
use mathlib.Core.HLevel.{Σ_prop_path, Σ_set, ×_prop, prop→set}
use mathlib.Core.Path.{ap₂}
use native.Mathlib.Bridge.{le_prop}
use mathlib.Core.List.{Perm}
use mathlib.Core.List.Perm
use mathlib.Core.Quot
use mathlib.Core.Quot.{Quot, Quot-set}
use multipath_proxy.Prelude.{
  ℕ, suc, ◌≡◌, refl, sym, ap, ◌∙◌, ◌%◌, ◌^◌, List, [], ◌∷◌, arith, length,
}
use multipath_proxy.Packet.FlowPacket.{FlowPacket, id}
use multipath_proxy.Collections.Sorted.{Above, Small, Above-Absent, Above-perm-eq, total_size}
use multipath_proxy.Collections.BlockingQueue.{BlockingQueue, empty_queue, insert, front_is}
use multipath_proxy.Collections.BlockingQueue.Invariant.{
  IsValid, IsMeasured, insert-IsValid, insert-IsMeasured,
}
use multipath_proxy.Collections.BlockingQueue.Delivery.{AreNew, AreNew-insert_sorted}
use multipath_proxy.Collections.BlockingQueue.Reorder.{insert_all, insert_all-Filled, empty-IsValid}

-- Packets for a new queue, in the order in which they come: the ids are pairwise distinct.
abbrev Arrivals : Type 0
Arrivals = (ps : List FlowPacket) × AreNew 0 [] ps

abbrev SamePackets : Arrivals → Arrivals → Type 0
SamePackets a b = Perm a.0 b.0

abbrev Bag : Type 0
Bag = Quot SamePackets

-- A queue that nothing was taken from: its fields fit its deque, and it waits for the id 0.
record IsFresh (q : BlockingQueue) : Type 0 where
  pub valid : IsValid q
  pub small : Small q.deque
  pub first : q.current_id ≡ 0
  pub measured : IsMeasured q

abbrev Fresh : Type 0
Fresh = (q : BlockingQueue) × IsFresh q

insert_all-IsMeasured :
    (ps : List FlowPacket) (q : BlockingQueue)
    → IsValid q
    → IsMeasured q
    → AreNew q.current_id q.deque ps
    → IsMeasured (insert_all q ps)
insert_all-IsMeasured [] q v m n = m
insert_all-IsMeasured (p ∷ ps) q v m n =
    let (v', d, c) = insert-IsValid p q v (n.0, n.2) in
    insert_all-IsMeasured ps (insert p q) v' (insert-IsMeasured p q v (n.0, n.2) m)
      (rw (d, c) (AreNew-insert_sorted q.current_id p q.deque ps n.3 n.4))

-- The state of a new queue behind the Inserts.
unfoldable fill : Arrivals → Fresh
fill (ps, new) =
    let filled = insert_all-Filled ps empty_queue empty-IsValid tt new in
    (
      insert_all empty_queue ps,
      record {
        valid = filled.valid;
        small = filled.small;
        first = filled.same;
        measured = insert_all-IsMeasured ps empty_queue empty-IsValid refl new;
      },
    )

Above-prop : (n : ℕ) (xs : List FlowPacket) → IsProp (Above n xs)
Above-prop n [] = hlevel
Above-prop n (x ∷ xs) = ×_prop le_prop (Above-prop (suc (id x)) xs)

Small-prop : (xs : List FlowPacket) → IsProp (Small xs)
Small-prop [] = hlevel
Small-prop (x ∷ xs) = ×_prop le_prop (Small-prop xs)

IsFresh-prop : (q : BlockingQueue) → IsProp (IsFresh q)
IsFresh-prop q =
    let above = Above-prop q.current_id q.deque in let small = Small-prop q.deque in hlevel

Fresh-set : IsSet Fresh
Fresh-set = Σ_set (hlevel) (λ q. prop→set (IsFresh-prop q))

-- What is in the deque says all.
queue-ext : (q r : BlockingQueue) → IsFresh q → IsFresh r → q.deque ≡ r.deque → q ≡ r
queue-ext q r f g e =
    let c : q.current_id ≡ r.current_id = f.first ∙ sym g.first in
    let size_of : q.size_ ≡ r.size_ =
      f.valid.counted ∙ ap (λ (xs : List FlowPacket). length xs % 2 ^ 64) e ∙ sym g.valid.counted in
    let bytes : q.byte_size ≡ r.byte_size =
      f.measured ∙ ap (λ (xs : List FlowPacket). total_size xs % 2 ^ 64) e ∙ sym g.measured in
    let front : q.next_available ≡ r.next_available =
      f.valid.available ∙ ap₂ front_is c e ∙ sym g.valid.available in
    λ i. record {
      next_available = front i;
      deque = e i;
      size_ = size_of i;
      current_id = c i;
      byte_size = bytes i;
    }

Fresh-ext : (q r : Fresh) → q.0.deque ≡ r.0.deque → q ≡ r
Fresh-ext (q, f) (r, g) e = Σ_prop_path IsFresh-prop (queue-ext q r f g e)

fill-perm : (a : Arrivals) → Perm a.0 (fill a).0.deque
unfolding fill
fill-perm (ps, new) = (insert_all-Filled ps empty_queue empty-IsValid tt new).holds

-- The same packets in another order fill the same deque.
fill-same : (a b : Arrivals) → SamePackets a b → (fill a).0.deque ≡ (fill b).0.deque
fill-same a b same =
    let f = (fill a).1 in
    let g = (fill b).1 in
    Above-perm-eq 0 (fill a).0.deque (fill b).0.deque (rw f.first at f.valid.ascending)
      (rw g.first at g.valid.ascending)
      (Perm.trans (Perm.symm (fill-perm a)) (Perm.trans same (fill-perm b)))

-- The state of a new queue behind the Inserts of a bag.
unfoldable state : Bag → Fresh
state = Quot.lift Fresh-set fill (λ a b same. Fresh-ext (fill a) (fill b) (fill-same a b same))

Above-AreNew : (n : ℕ) (xs : List FlowPacket) → Above n xs → Small xs → AreNew 0 [] xs
Above-AreNew n [] a s = tt
Above-AreNew n (x ∷ xs) a s = (
  omega arith,
  s.0,
  tt,
  Above-Absent (id x) (suc (id x)) xs (omega arith) a.1,
  Above-AreNew (suc (id x)) xs a.1 s.1,
)

unfoldable waiting : Fresh → Arrivals
waiting (q, f) = (q.deque, Above-AreNew q.current_id q.deque f.valid.ascending f.small)

fill-waiting : (q : Fresh) → fill (waiting q) ≡ q
unfolding waiting
fill-waiting (q, f) =
    let g = (fill (waiting (q, f))).1 in
    Fresh-ext (fill (waiting (q, f))) (q, f)
      (Above-perm-eq 0 (fill (waiting (q, f))).0.deque q.deque (rw g.first at g.valid.ascending)
        (rw f.first at f.valid.ascending) (Perm.symm (fill-perm (waiting (q, f)))))

state-waiting : (q : Fresh) → state (Quot.mk (waiting q)) ≡ q
unfolding state
state-waiting = fill-waiting

waiting-state : (b : Bag) → Quot.mk (waiting (state b)) ≡ b
unfolding waiting state
waiting-state = Quot.ind (λ b. Quot-set _ _) (λ a. Quot.sound (Perm.symm (fill-perm a)))

-- The Inserts of packets into a new queue come to an equivalence between the bags of packets with
-- pairwise distinct ids, whose successors fit 64 bits, and the valid queues that wait for the id
-- 0, with ids of that width, whose backlog is the sum of the sizes modulo 2 ^ 64. That is: the
-- order in which the packets come makes no difference to any field, two bags that leave the same
-- queue are the same bag, and each of these queues is left by some bag.
state-IsEquiv : IsEquiv state
state-IsEquiv =
    let both : Iso Bag Fresh = record {
      fun = state;
      inv = λ q. Quot.mk (waiting q);
      rinv = state-waiting;
      linv = waiting-state;
    } in
    (iso_to_equiv both).1
