-- ===== src/Collections/LockFree/Races.antt =====
-- Orders of steps in which the lock-free queue goes wrong
-- (src/collections/LockFreeFlowPacketQueue.cpp).
use mathlib.Core.Path.{subst}
use multipath_proxy.Prelude.{
  ℕ, zero, suc, ◌≡◌, refl, List, [], ◌∷◌, Option, none, some, ◌≤◌, ◌==◌, length, Bool-cases, inl,
  inr, arith, ==_iff,
}
use multipath_proxy.Packet.FlowPacket.{FlowPacket}
use multipath_proxy.Collections.LockFree.{
  Node, Queue, entering, loading, storing, comparing, prepending, walking, following, linking,
  reloading, hinting, counting, weighing, inserted, refused, crashed, InsertAt, put, insert_move,
}
use multipath_proxy.Collections.LockFree.Threads.{
  Thread, inserting, popping, clearing, System, set_thread, move, turn, run, chain,
}

-- Behind the load of the empty head in Insert of `p`.
abbrev pub HasLoaded : FlowPacket → InsertAt → Type 0
HasLoaded p (storing q) = q ≡ p
HasLoaded p (hinting q a) = q ≡ p
HasLoaded p (counting q) = q ≡ p
HasLoaded p (weighing q) = q ≡ p
HasLoaded p (inserted q) = q ≡ p
HasLoaded p _ = ⊥

-- The head is null, or a node without a next.
abbrev pub IsShort : Queue → Type 0
IsShort q = (k : ℕ) → length (chain k q.nodes q.head) ≤ 1

abbrev pub At : (ℕ → FlowPacket) → ℕ → Thread → Type 0
At packets i (inserting t) = HasLoaded (packets i) t
At packets i _ = ⊥

record Lost (packets : ℕ → FlowPacket) (s : System) : Type 0 where
  short : IsShort s.queue
  threads : (i : ℕ) → At packets i (s.threads i)

stored_short :
    (q : Queue) (p : FlowPacket) (k : ℕ)
    → length (
        chain k
          (put q.nodes q.fresh (some (record { flow_packet = p; next = none })))
          (some q.fresh))
      ≤ 1
unfolding chain
stored_short q p zero = omega arith
stored_short q p (suc zero) = ground arith
stored_short q p (suc (suc k)) = ground arith

-- An access of a thread that has loaded the empty head.
insert_move-Lost :
    (p : FlowPacket) (q : Queue) (t : InsertAt)
    → HasLoaded p t
    → IsShort q
    → HasLoaded p (insert_move q t).1 × IsShort (insert_move q t).0
unfolding insert_move
insert_move-Lost p q (storing r) e s = (e, stored_short q r)
insert_move-Lost p q (hinting r a) e s = (e, s)
insert_move-Lost p q (counting r) e s = (e, s)
insert_move-Lost p q (weighing r) e s = (e, s)
insert_move-Lost p q (inserted r) e s = (e, s)
insert_move-Lost p q (entering r) e s = elim e [ ]
insert_move-Lost p q (loading r) e s = elim e [ ]
insert_move-Lost p q (reloading r) e s = elim e [ ]
insert_move-Lost p q (comparing r a) e s = elim e [ ]
insert_move-Lost p q (prepending r a) e s = elim e [ ]
insert_move-Lost p q (walking r a) e s = elim e [ ]
insert_move-Lost p q (following r a b) e s = elim e [ ]
insert_move-Lost p q (linking r a b) e s = elim e [ ]
insert_move-Lost p q (refused r) e s = elim e [ ]
insert_move-Lost p q crashed e s = elim e [ ]

move-Lost :
    (packets : ℕ → FlowPacket) (i : ℕ) (q : Queue) (t : Thread)
    → At packets i t
    → IsShort q
    → At packets i (move q t).1 × IsShort (move q t).0
unfolding move
move-Lost packets i q (inserting t) a s = insert_move-Lost (packets i) q t a s
move-Lost packets i q (popping t) a s = elim a [ ]
move-Lost packets i q (clearing t) a s = elim a [ ]

set_thread-At :
    (packets : ℕ → FlowPacket) (i : ℕ) (t : Thread) (threads : ℕ → Thread)
    → At packets i t
    → ((j : ℕ) → At packets j (threads j))
    → (j : ℕ) → At packets j (set_thread threads i t j)
set_thread-At packets i t threads a rest j = elim (Bool-cases (i == j)) [
  | inl same ↦ rw same (subst (λ k. At packets k t) ((==_iff i j).0 same) a)
  | inr other ↦ rw other (rest j)
]

turn-Lost :
    (packets : ℕ → FlowPacket) (i : ℕ) (s : System) → Lost packets s → Lost packets (turn i s)
unfolding turn
turn-Lost packets i s v =
    let (a, short) = move-Lost packets i s.queue (s.threads i) (v.threads i) v.short in
    record {
      short = short;
      threads = set_thread-At packets i (move s.queue (s.threads i)).1 s.threads a v.threads;
    }

run-Lost :
    (packets : ℕ → FlowPacket) (is : List ℕ) (s : System) → Lost packets s → Lost packets (run is s)
unfolding run
run-Lost packets [] s v = v
run-Lost packets (i ∷ is) s v = run-Lost packets is (turn i s) (turn-Lost packets i s v)

-- Threads that have each loaded the head in Insert of their packet.
abbrev pub have_loaded : (ℕ → FlowPacket) → Queue → System
have_loaded packets q = record { queue = q; threads = λ i. inserting (storing (packets i)) }

chain_null : (k : ℕ) (nodes : ℕ → Option Node) → length (chain k nodes none) ≤ 1
unfolding chain
chain_null zero nodes = omega arith
chain_null (suc k) nodes = omega arith

-- Threads that call Insert of the lock-free queue, in any number, and have all loaded a null head
-- before one of them stores it: after any order of their accesses each is on its way to the end of
-- Insert or has returned, none is refused, and none uses a null pointer; but the list never has
-- more than one packet, however many have returned.
pub inserts_race :
    (packets : ℕ → FlowPacket) (q : Queue) (is : List ℕ)
    → q.head ≡ none
    → (let s = run is (have_loaded packets q) in
        IsShort s.queue × ((i : ℕ) → At packets i (s.threads i)))
inserts_race packets q is e =
    let lost =
      run-Lost packets is (have_loaded packets q)
        (record { short = λ k. rw e (chain_null k q.nodes); threads = λ i. refl }) in
    (lost.short, lost.threads)
