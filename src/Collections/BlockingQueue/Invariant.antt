-- ===== src/Collections/BlockingQueue/Invariant.antt =====
-- What every Insert, Pop and Clear keep.
use multipath_proxy.Prelude.{
  ℕ, suc, ◌+◌, ◌%◌, ◌^◌, ◌≤◌, ◌<◌, ◌≡◌, refl, sym, ap, ◌∙◌, inl, inr, List, [], ◌∷◌, arith, ◌==◌,
  if◌then◌else◌, Bool-cases, true, false, length, ==_iff,
}
use multipath_proxy.Outcome.{done, fault, blocked}
use multipath_proxy.Packet.FlowPacket.{FlowPacket, id, size}
use multipath_proxy.Collections.Sorted.{
  Small, Above, Absent, Above-Absent, total_size, insert_sorted, insert_sorted-Above,
  length-insert_sorted, total_size-insert_sorted,
}
use multipath_proxy.Collections.BlockingQueue.{
  BlockingQueue, add64, sub64, front_is, insert, take_front, pop, clear,
}
use multipath_proxy.Collections.BlockingQueue.Insert.{place-eq-insert_sorted}

-- The deque ascends from the next id on, `size_` counts it, and `next_available` says whether its
-- front is the packet with the next id.
pub record IsValid (q : BlockingQueue) : Type 0 where
  pub ascending : Above q.current_id q.deque
  pub counted : q.size_ ≡ length q.deque % 2 ^ 64
  pub available : q.next_available ≡ front_is q.current_id q.deque

-- `byte_size` is the backlog: the payload bytes in the deque.
abbrev pub IsMeasured : BlockingQueue → Type 0
IsMeasured q = q.byte_size ≡ total_size q.deque % 2 ^ 64

front_is-insert_sorted :
    (c : ℕ) (p : FlowPacket) (xs : List FlowPacket)
    → c ≤ id p
    → Absent (id p) xs
    → front_is c xs ≡ true
    → front_is c (insert_sorted p xs) ≡ true
unfolding insert_sorted
front_is-insert_sorted c p [] le f e = cc
front_is-insert_sorted c p (x ∷ xs) le f e = ground arith

-- An id that was neither delivered nor is waiting.
abbrev pub IsNew : ℕ → BlockingQueue → Type 0
IsNew i q = (q.current_id ≤ i) × Absent i q.deque

deque-insert :
    (p : FlowPacket) (q : BlockingQueue)
    → IsValid q
    → IsNew (id p) q
    → (insert p q).deque ≡ insert_sorted p q.deque
unfolding insert
deque-insert p q v new = place-eq-insert_sorted q.current_id p q.deque v.ascending new.1

available-insert :
    (p : FlowPacket) (q : BlockingQueue)
    → IsValid q
    → IsNew (id p) q
    → (insert p q).next_available ≡ front_is q.current_id (insert_sorted p q.deque)
unfolding insert
available-insert p q v new =
    rw (place-eq-insert_sorted q.current_id p q.deque v.ascending new.1, v.available)
      (ground (arith, front_is-insert_sorted q.current_id p q.deque new.0 new.1))

-- Insert of a packet with an id that is not delivered and not waiting keeps a valid queue valid:
-- the packet takes its place by id, and the queue goes on waiting for the same id.
pub insert-IsValid :
    (p : FlowPacket) (q : BlockingQueue)
    → IsValid q
    → IsNew (id p) q
    → IsValid (insert p q)
      × ((insert p q).deque ≡ insert_sorted p q.deque)
      × ((insert p q).current_id ≡ q.current_id)
unfolding insert
insert-IsValid p q v new =
    let e = place-eq-insert_sorted q.current_id p q.deque v.ascending new.1 in
    (
      record {
        ascending = rw e (insert_sorted-Above q.current_id p q.deque new.0 new.1 v.ascending);
        counted = rw (e, length-insert_sorted) (omega (arith, v.counted));
        available = available-insert p q v new ∙ ap (front_is q.current_id) (sym e);
      },
      e,
      refl,
    )

-- Insert of a packet with a new id into a valid queue keeps its backlog the sum of the sizes that
-- wait, modulo 2 ^ 64.
pub insert-IsMeasured :
    (p : FlowPacket) (q : BlockingQueue)
    → IsValid q
    → IsNew (id p) q
    → IsMeasured q
    → IsMeasured (insert p q)
unfolding insert
insert-IsMeasured p q v new m =
    rw (place-eq-insert_sorted q.current_id p q.deque v.ascending new.1, total_size-insert_sorted)
      (omega arith)

-- What Pop comes to on a valid queue: it waits where the packet with the next id is not there, and
-- otherwise returns that packet, which was the front.
pub data PopResult (q : BlockingQueue) : Type 0 where
  waits : pop q ≡ fault blocked → Absent q.current_id q.deque → PopResult q
  returns :
      (p : FlowPacket) (q' : BlockingQueue)
      → pop q ≡ done (p, q')
      → id p ≡ q.current_id
      → q.deque ≡ p ∷ q'.deque
      → q'.current_id ≡ q.current_id + 1
      → IsValid q'
      → PopResult q

-- The state after Pop has taken the front.
abbrev popped : BlockingQueue → FlowPacket → List FlowPacket → BlockingQueue
popped q p rest = record {
  deque = rest;
  current_id = add64 q.current_id 1;
  size_ = sub64 q.size_ 1;
  byte_size = sub64 q.byte_size (size p);
  next_available = if front_is (add64 q.current_id 1) rest then q.next_available else false;
}

pop_front :
    (q : BlockingQueue) (p : FlowPacket) (rest : List FlowPacket)
    → q.next_available ≡ true
    → q.deque ≡ p ∷ rest
    → (id p == q.current_id) ≡ true
    → pop q ≡ done (p, popped q p rest)
unfolding pop take_front
pop_front q p rest n d e = ground arith

pop_waits : (q : BlockingQueue) → q.next_available ≡ false → pop q ≡ fault blocked
unfolding pop
pop_waits q n = rw n

popped-IsValid :
    (q : BlockingQueue) (x : FlowPacket) (xs : List FlowPacket)
    → q.deque ≡ x ∷ xs
    → Above q.current_id (x ∷ xs)
    → id x ≡ q.current_id
    → q.next_available ≡ true
    → q.size_ ≡ length q.deque % 2 ^ 64
    → q.current_id + 1 < 2 ^ 64
    → IsValid (popped q x xs)
popped-IsValid q x xs e up same next counted small =
    let c : add64 q.current_id 1 ≡ suc (id x) = omega arith in
    record {
      ascending = rw c up.1;
      counted = omega (arith, ap length e);
      available = rw next (ground arith);
    }

popped-IsMeasured :
    (q : BlockingQueue) (x : FlowPacket) (xs : List FlowPacket)
    → q.deque ≡ x ∷ xs
    → IsMeasured q
    → size x < 2 ^ 64
    → IsMeasured (popped q x xs)
popped-IsMeasured q x xs e m small = omega (arith, ap total_size e)

pop_result :
    (q : BlockingQueue) (xs : List FlowPacket) → q.deque ≡ xs → IsValid q → Small xs → PopResult q
pop_result q [] e v small =
    waits (pop_waits q (v.available ∙ ap (front_is q.current_id) e)) (rw e tt)
pop_result q (x ∷ xs) e v small =
    let up : Above q.current_id (x ∷ xs) = rw e at v.ascending in
    let ready : q.next_available ≡ (id x == q.current_id) =
      v.available ∙ ap (front_is q.current_id) e in
    elim (Bool-cases (id x == q.current_id)) [
      | inl same ↦
          returns x (popped q x xs) (pop_front q x xs (ready ∙ same) e same)
            ((==_iff (id x) q.current_id).0 same) e (omega arith)
            (popped-IsValid q x xs e up ((==_iff (id x) q.current_id).0 same) (ready ∙ same)
              v.counted (omega arith))
      | inr other ↦
          waits (pop_waits q (ready ∙ other))
            (rw e (ground arith, Above-Absent q.current_id (suc (id x)) xs (omega arith) up.1))
    ]

-- Pop on a valid queue whose ids have successors that fit 64 bits returns the packet with the next
-- id where it is there, leaves the others in a valid queue and advances the next id by one;
-- otherwise it waits, and the next id is not in the queue.
pub pop-PopResult : (q : BlockingQueue) → IsValid q → Small q.deque → PopResult q
pop-PopResult q v small = pop_result q q.deque refl v small

-- Pop of the packet whose turn it is keeps the backlog the sum of the sizes that wait, modulo 2 ^
-- 64, where `nextAvailable_` is set and the size of the packet fits 64 bits.
pub pop-IsMeasured :
    (q : BlockingQueue) (x : FlowPacket) (xs : List FlowPacket)
    → IsMeasured q
    → q.deque ≡ x ∷ xs
    → size x < 2 ^ 64
    → id x ≡ q.current_id
    → q.next_available ≡ true
    → (q' : BlockingQueue) × (pop q ≡ done (x, q')) × IsMeasured q'
pop-IsMeasured q x xs m e small turn ready = (
  popped q x xs,
  pop_front q x xs ready e ((==_iff (id x) q.current_id).1 turn),
  popped-IsMeasured q x xs e m small,
)

-- Clear empties the deque and keeps the next id, so the next Pop waits for that id.
pub clear-IsValid :
    (q : BlockingQueue)
    → IsValid (clear q) × ((clear q).deque ≡ []) × ((clear q).current_id ≡ q.current_id)
unfolding clear
clear-IsValid q = (record { ascending = tt; counted = refl; available = refl }, refl, refl)

-- Clear of a queue whose backlog is the sum of the sizes that wait, above 0 and below 2 ^ 64,
-- leaves a backlog that is not: it still counts what was thrown away.
pub clear-not-IsMeasured :
    (q : BlockingQueue)
    → IsMeasured q
    → 0 < total_size q.deque
    → total_size q.deque < 2 ^ 64
    → ¬ IsMeasured (clear q)
unfolding clear
clear-not-IsMeasured q m pos small e = omega arith
