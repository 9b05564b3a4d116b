-- ===== src/Collections/LockFree/Alone/SameRuns.antt =====
-- The lock-free queue with one thread does what the blocking queue does
-- (src/collections/IFlowPacketQueue.h has both as its implementations).
use mathlib.Core.Path.{subst}
use multipath_proxy.Prelude.{
  ℕ, suc, ◌+◌, ◌*◌, ◌≤◌, ◌≡◌, refl, sym, ap, ◌∙◌, List, [], ◌∷◌, Option, some, arith, length,
  rev_append,
}
use multipath_proxy.Outcome.{done}
use multipath_proxy.Packet.FlowPacket.{FlowPacket, id}
use multipath_proxy.Collections.Sorted.{Small, Small-insert_sorted}
use multipath_proxy.Collections.BlockingQueue.{BlockingQueue, empty_queue, insert}
use multipath_proxy.Collections.BlockingQueue.Invariant.{IsValid, insert-IsValid, pop-PopResult}
use multipath_proxy.Collections.BlockingQueue.Delivery.{
  Call, inserts, pops, run, arrivals, AreNew, AreNew-insert_sorted,
}
use multipath_proxy.Collections.BlockingQueue.Reorder.{empty-IsValid}
use multipath_proxy.Collections.LockFree.{Queue, Node, new}
use multipath_proxy.Collections.LockFree.Threads.{chain}
use multipath_proxy.Collections.LockFree.Alone.{calls_alone}
use multipath_proxy.Collections.LockFree.Alone.Chain.{Cell, first, packets, Chain, place_cell}
use multipath_proxy.Collections.LockFree.Alone.InsertAlone.{insert_alone}
use multipath_proxy.Collections.LockFree.Alone.PopAlone.{pop_alone}
use multipath_proxy.Collections.LockFree.Alone.Alike.{Alike, back, Alike-Absent, Alike-insert}
use multipath_proxy.Collections.LockFree.Alone.SameCalls.{
  Narrow, SameRun, SameRun-inserts, Narrow-insert_sorted, length-place_cell, same_pop,
}

-- From queues that hold the same, any calls give the same.
same_run :
    (k : ℕ) (calls : List Call) (b : BlockingQueue) (q : Queue) (cs : List Cell)
    → Alike b q cs
    → IsValid b
    → Small b.deque
    → Narrow b.deque
    → AreNew b.current_id b.deque (arrivals calls)
    → Narrow (arrivals calls)
    → 2 * (length cs + length (arrivals calls)) + 12 ≤ k
    → SameRun k b q calls
same_run k [] b q cs like v s narrow n narrows fuel = record {
  out = [];
  last_b = b;
  last_q = q;
  cells = cs;
  runs_b = unfold run in refl;
  runs_q = unfold calls_alone in refl;
  alike = like;
}
same_run k (inserts p ∷ calls) b q cs like v s narrow n narrows fuel =
    let (v', d, c) = insert-IsValid p b v (n.0, n.2) in
    let put = insert_alone q p cs like.is_list (Alike-Absent b q cs (id p) like n.2) in
    SameRun-inserts k b q calls p put.after (put.ends.at_end k (omega arith)) (
      same_run k calls (insert p b) put.after (place_cell (q.fresh, p) cs)
        (Alike-insert b q cs p like v (n.0, n.2) put) v'
        (rw d (Small-insert_sorted p b.deque n.1 s))
        (subst Narrow (sym d) (Narrow-insert_sorted p b.deque narrows.0 narrow))
        (rw (d, c) (AreNew-insert_sorted b.current_id p b.deque (arrivals calls) n.3 n.4)) narrows.1
        (omega (arith, length-place_cell (q.fresh, p) cs)))
same_run k (pops ∷ calls) b q cs like v s narrow n narrows fuel =
    same_pop k calls b q cs like v s narrow n fuel
      (λ b' q' cs' like' v' s' narrow' n' le.
        same_run k calls b' q' cs' like' v' s' narrow' n' narrows (omega arith))
      (pop_alone q cs like.is_list) (pop-PopResult b v s)

chain-packets :
    (nodes : ℕ → Option Node) (cs : List Cell)
    → Chain nodes cs
    → chain (length cs) nodes (first cs) ≡ packets cs
unfolding chain
chain-packets nodes [] c = refl
chain-packets nodes (x ∷ cs) c = rw (c.0, chain-packets nodes cs c.1) refl

length-packets : (cs : List Cell) → length (packets cs) ≡ length cs
length-packets [] = refl
length-packets (c ∷ cs) = ap suc (length-packets cs)

length-rev_append : (xs ys : List FlowPacket) → length (rev_append xs ys) ≡ length xs + length ys
length-rev_append [] ys = omega arith
length-rev_append (x ∷ xs) ys = omega (arith, length-rev_append xs (x ∷ ys))

new_is_empty : (t : ℕ) → Alike empty_queue (new t) []
unfolding new
new_is_empty t = record {
  is_list = record { at_head = refl; chain = tt; distinct = tt; inside = tt };
  mirrored = refl;
  same_size = refl;
  same_bytes = refl;
  same_id = refl;
}

holds_same :
    (b : BlockingQueue) (q : Queue) (cs : List Cell)
    → Alike b q cs
    → chain (length b.deque) q.nodes q.head ≡ rev_append b.deque []
holds_same b q cs like =
    let n : length b.deque ≡ length cs =
      omega
        (arith, ap length like.mirrored, length-rev_append (packets cs) [], length-packets cs) in
    rw (n, like.is_list.at_head)
      (chain-packets q.nodes cs like.is_list.chain ∙ sym (back cs b.deque like.mirrored))

-- One thread that calls Insert and Pop of a new lock-free queue gets from the Pops the packets
-- that the same calls get from a new BlockingFlowPacketQueue, and leaves the same packets, back to
-- front, the same size and the same count of bytes: a Pop returns nothing where that of the other
-- queue waits. The ids of the packets are pairwise distinct, their successors fit 32 bits, and
-- each call may take 12 accesses and two more for each packet.
pub same_as_blocking :
    (t k : ℕ) (calls : List Call)
    → AreNew 0 [] (arrivals calls)
    → Narrow (arrivals calls)
    → 2 * length (arrivals calls) + 12 ≤ k
    → (out : List FlowPacket) × (b : BlockingQueue) × (q : Queue) × (run empty_queue calls
        ≡ done (out, b))
      × (calls_alone k (new t) calls ≡ some (out, q))
      × (chain (length b.deque) q.nodes q.head ≡ rev_append b.deque [])
      × (q.size_ ≡ b.size_)
      × (q.byte_size ≡ b.byte_size)
same_as_blocking t k calls n narrow fuel =
    let r =
      same_run k calls empty_queue (new t) [] (new_is_empty t) empty-IsValid tt tt n narrow
        (omega arith) in
    (
      r.out,
      r.last_b,
      r.last_q,
      r.runs_b,
      r.runs_q,
      holds_same r.last_b r.last_q r.cells r.alike,
      r.alike.same_size,
      r.alike.same_bytes,
    )
