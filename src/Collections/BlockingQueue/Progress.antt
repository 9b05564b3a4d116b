-- ===== src/Collections/BlockingQueue/Progress.antt =====
-- The consumer never waits for a packet that has arrived.
use mathlib.Core.Logic.Or
use mathlib.Core.HLevel.{⊥_prop}
use mathlib.Core.List.{Mem, mem-append}
use mathlib.Core.List.Perm
use multipath_proxy.Prelude.{ℕ, ◌+◌, ◌≤◌, ◌≢◌, ◌≡◌, sym, ap, ◌∙◌, List, [], ◌∷◌, arith, length}
use multipath_proxy.Outcome.{done, fault, blocked, done-injective}
use multipath_proxy.Packet.FlowPacket.{FlowPacket, id}
use multipath_proxy.Collections.Sorted.{Consecutive, Absent, Absent-not-mem}
use multipath_proxy.Collections.BlockingQueue.{BlockingQueue, empty_queue, pop}
use multipath_proxy.Collections.BlockingQueue.Invariant.{waits, returns, pop-PopResult}
use multipath_proxy.Collections.BlockingQueue.Delivery.{
  Call, run, arrivals, AreNew, Delivered, run-Delivered,
}
use multipath_proxy.Collections.BlockingQueue.Reorder.{empty-IsValid}

-- What was delivered has ids below the next one.
Consecutive-Absent :
    (c i : ℕ) (xs : List FlowPacket) → Consecutive c xs → c + length xs ≤ i → Absent i xs
Consecutive-Absent c i [] s h = tt
Consecutive-Absent c i (x ∷ xs) s h =
    (omega arith, Consecutive-Absent (c + 1) i xs s.1 (omega arith))

no_wait :
    (calls : List Call) (p : FlowPacket)
    → Mem p (arrivals calls)
    → (r : Delivered empty_queue calls) → id p ≡ r.last.current_id
    → pop r.last ≢ fault blocked
no_wait calls p arrived r turn e = elim (pop-PopResult r.last r.valid r.small) [
  | returns q q' popped _ _ _ _ ↦ cc
  | waits _ missing ↦
      Or.elim ⊥_prop (mem-append.0 ((Perm.mem_iff r.conserved).0 arrived))
        (Absent-not-mem r.out
          (Consecutive-Absent 0 (id p) r.out r.in_order (omega (arith, r.advanced))))
        (Absent-not-mem r.last.deque (rw turn missing))
]

-- After any calls on a new queue, with ids that are pairwise distinct and whose successors fit 64
-- bits, Pop does not wait if the packet whose turn it is has arrived.
pub pop_progress :
    (calls : List Call) (p : FlowPacket) (out : List FlowPacket) (last : BlockingQueue)
    → AreNew 0 [] (arrivals calls)
    → Mem p (arrivals calls)
    → run empty_queue calls ≡ done (out, last)
    → id p ≡ last.current_id
    → pop last ≢ fault blocked
pop_progress calls p out last n arrived ran turn =
    let r = run-Delivered calls empty_queue empty-IsValid tt n in
    let same : last ≡ r.last =
      ap (λ (x : List FlowPacket × BlockingQueue). x.1) (done-injective (sym ran ∙ r.runs)) in
    rw same (no_wait calls p arrived r (turn ∙ ap (λ (q : BlockingQueue). q.current_id) same))
