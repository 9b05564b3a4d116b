-- ===== src/Collections/LockFree/Alone.antt =====
-- One thread alone on the lock-free queue (src/collections/LockFreeFlowPacketQueue.cpp): each of its
-- calls of Insert and Pop runs to its end before the next one starts.
pub mod Chain
pub mod InsertWalk
pub mod InsertAlone
pub mod TakeOut
pub mod PopWalk
pub mod PopAlone
pub mod Alike
pub mod SameCalls
pub mod SameRuns
pub mod Refused
use multipath_proxy.Prelude.{
  ℕ, zero, suc, ◌≤◌, ◌≡◌, refl, List, [], ◌∷◌, ◌++◌, Option, none, some, ap, ◌∙◌, arith,
}
use multipath_proxy.Packet.FlowPacket.{FlowPacket}
use multipath_proxy.Collections.BlockingQueue.Delivery.{Call, inserts, pops}
use multipath_proxy.Collections.LockFree.{Queue, entering, inserted}
use multipath_proxy.Collections.LockFree.Pop.{pop_entering, popped}
use multipath_proxy.Collections.LockFree.Threads.{Thread, inserting, popping, move}

-- So many accesses of the thread.
unfoldable pub alone : ℕ → Queue → Thread → Queue × Thread
alone zero q t = (q, t)
alone (suc k) q t = alone k (move q t).0 (move q t).1

abbrev pub start : Call → Thread
start (inserts p) = inserting (entering p)
start pops = popping pop_entering

-- What a call that has returned gives: a packet, or nothing.
abbrev pub answer : Thread → Option (List FlowPacket)
answer (inserting (inserted p)) = some []
answer (popping (popped none)) = some []
answer (popping (popped (some p))) = some (p ∷ [])
answer _ = none

abbrev pub in_front :
    List FlowPacket → Option (List FlowPacket × Queue) → Option (List FlowPacket × Queue)
in_front out none = none
in_front out (some (rest, last)) = some (out ++ rest, last)

abbrev pub and_then :
    Option (List FlowPacket) → Option (List FlowPacket × Queue) → Option (List FlowPacket × Queue)
and_then none rest = none
and_then (some out) rest = in_front out rest

-- The calls in order, with `k` accesses for each, and the packets that the Pops return. There is no
-- result where a call throws, or has not returned.
unfoldable pub calls_alone : ℕ → Queue → List Call → Option (List FlowPacket × Queue)
calls_alone k q [] = some ([], q)
calls_alone k q (c ∷ cs) =
    let rest = calls_alone k (alone k q (start c)).0 cs in
    and_then (answer (alone k q (start c)).1) rest

-- After `n` accesses, and with any more, the thread is at `t'` and has left the queue as `q'`.
pub record Ends (n : ℕ) (q : Queue) (t : Thread) (q' : Queue) (t' : Thread) : Type 0 where
  pub at_end : (k : ℕ) → n ≤ k → alone k q t ≡ (q', t')

step_lem :
    (n : ℕ) (q q₁ q' : Queue) (t t₁ t' : Thread)
    → move q t ≡ (q₁, t₁)
    → ((k : ℕ) → n ≤ k → alone k q₁ t₁ ≡ (q', t'))
    → (k : ℕ) → suc n ≤ k
    → alone k q t ≡ (q', t')
unfolding alone
step_lem n q q₁ q' t t₁ t' e ends zero h = absurd (omega arith)
step_lem n q q₁ q' t t₁ t' e ends (suc k) h =
    ap (λ (m : Queue × Thread). alone k m.0 m.1) e ∙ ends k (omega arith)

pub step :
    {n : ℕ} {q' : Queue} {t' : Thread} (q : Queue) (t : Thread) (q₁ : Queue) (t₁ : Thread)
    → move q t ≡ (q₁, t₁)
    → Ends n q₁ t₁ q' t'
    → Ends (suc n) q t q' t'
step {n} {q'} {t'} q t q₁ t₁ e ends = record { at_end = step_lem n q q₁ q' t t₁ t' e ends.at_end }

stop_lem : (q : Queue) (t : Thread) → move q t ≡ (q, t) → (k : ℕ) → 0 ≤ k → alone k q t ≡ (q, t)
unfolding alone
stop_lem q t e zero h = refl
stop_lem q t e (suc k) h =
    ap (λ (m : Queue × Thread). alone k m.0 m.1) e ∙ stop_lem q t e k (omega arith)

pub stop : (q : Queue) (t : Thread) → move q t ≡ (q, t) → Ends 0 q t q t
stop q t e = record { at_end = stop_lem q t e }

pub Ends-mono :
    {m n : ℕ} {q q' : Queue} {t t' : Thread} → m ≤ n → Ends m q t q' t' → Ends n q t q' t'
Ends-mono h ends = record { at_end = λ k le. ends.at_end k (omega arith) }
