-- ===== src/Collections/LockFree/Threads.antt =====
-- Threads that call Insert, Pop and Clear of one queue (src/collections/LockFreeFlowPacketQueue.cpp),
-- in the order of a schedule.
use multipath_proxy.Prelude.{ℕ, zero, suc, List, [], ◌∷◌, Option, none, some, ◌==◌, if◌then◌else◌}
use multipath_proxy.Packet.FlowPacket.{FlowPacket}
use multipath_proxy.Collections.LockFree.{Node, Queue, InsertAt, insert_move}
use multipath_proxy.Collections.LockFree.Pop.{PopAt, pop_move}
use multipath_proxy.Collections.LockFree.Clear.{ClearAt, clear_move}

-- A thread, by the call it is in.
pub data Thread : Type 0 where
  inserting : InsertAt → Thread
  popping : PopAt → Thread
  clearing : ClearAt → Thread

unfoldable pub move : Queue → Thread → Queue × Thread
move q (inserting t) = let (r, u) = insert_move q t in (r, inserting u)
move q (popping t) = let (r, u) = pop_move q t in (r, popping u)
move q (clearing t) = let (r, u) = clear_move q t in (r, clearing u)

pub record System : Type 0 where
  pub queue : Queue
  pub threads : ℕ → Thread

abbrev pub set_thread : (ℕ → Thread) → ℕ → Thread → ℕ → Thread
set_thread threads i t j = if i == j then t else threads j

-- The next access of thread `i`.
unfoldable pub turn : ℕ → System → System
turn i s =
    let (q, t) = move s.queue (s.threads i) in
    record { queue = q; threads = set_thread s.threads i t }

-- The schedule says whose turn it is.
unfoldable pub run : List ℕ → System → System
run [] s = s
run (i ∷ is) s = run is (turn i s)

-- The packets from a pointer on, of at most so many nodes.
unfoldable pub chain : ℕ → (ℕ → Option Node) → Option ℕ → List FlowPacket
chain zero nodes a = []
chain (suc k) nodes none = []
chain (suc k) nodes (some a) = elim (nodes a) [
  | none ↦ []
  | some n ↦ n.flow_packet ∷ chain k nodes n.next
]
