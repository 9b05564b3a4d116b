-- ===== src/Collections/LockFree/Schedules.antt =====
-- Any number of threads that insert at once (src/collections/LockFreeFlowPacketQueue.cpp).
use multipath_proxy.Prelude.{ℕ, ◌≡◌, ◌≢◌, refl, List, [], ◌∷◌, ◌==◌, Bool-cases, inl, inr, arith}
use multipath_proxy.Packet.FlowPacket.{FlowPacket, id}
use multipath_proxy.Collections.LockFree.{
  Queue, InsertAt, entering, loading, storing, reloading, comparing, prepending, walking, following,
  linking, hinting, counting, weighing, inserted, refused, crashed, compare_head, walk, follow,
  link, insert_move,
}
use multipath_proxy.Collections.LockFree.Linked.{
  Cells, cells, Holds, HoldsId, IsLinked, Grows, Grows-refl, Grows-trans,
}
use multipath_proxy.Collections.LockFree.Inserts.{
  Knows, Knows-Grows, Holds-Grows, insert_move-Stepped,
}
use multipath_proxy.Collections.LockFree.Threads.{
  Thread, inserting, popping, clearing, System, move, turn, run,
}

-- The packet that a thread inserts.
abbrev pub Carries : FlowPacket → InsertAt → Type 0
Carries r (entering p) = p ≡ r
Carries r (loading p) = p ≡ r
Carries r (storing p) = p ≡ r
Carries r (reloading p) = p ≡ r
Carries r (comparing p a) = p ≡ r
Carries r (prepending p a) = p ≡ r
Carries r (walking p a) = p ≡ r
Carries r (following p a b) = p ≡ r
Carries r (linking p a b) = p ≡ r
Carries r (hinting p a) = p ≡ r
Carries r (counting p) = p ≡ r
Carries r (weighing p) = p ≡ r
Carries r (inserted p) = p ≡ r
Carries r (refused p) = p ≡ r
Carries r crashed = Unit {0}

pub insert_move-Carries :
    (r : FlowPacket) (q : Queue) (t : InsertAt) → Carries r t → Carries r (insert_move q t).1
unfolding insert_move compare_head walk follow link
insert_move-Carries r q (entering p) k = k
insert_move-Carries r q (loading p) k = ground arith
insert_move-Carries r q (storing p) k = k
insert_move-Carries r q (reloading p) k = ground arith
insert_move-Carries r q (comparing p a) k = ground arith
insert_move-Carries r q (prepending p a) k = ground arith
insert_move-Carries r q (walking p a) k = ground arith
insert_move-Carries r q (following p a b) k = ground arith
insert_move-Carries r q (linking p a b) k = ground arith
insert_move-Carries r q (hinting p a) k = k
insert_move-Carries r q (counting p) k = k
insert_move-Carries r q (weighing p) k = k
insert_move-Carries r q (inserted p) k = k
insert_move-Carries r q (refused p) k = k
insert_move-Carries r q crashed k = k

-- A thread that inserts `r` and knows its place in the list.
abbrev pub Placed : Cells → FlowPacket → Thread → Type 0
Placed c r (inserting t) = Knows c t × Carries r t
Placed c r (popping t) = ⊥
Placed c r (clearing t) = ⊥

record Moved (c : Cells) (r : FlowPacket) (m : Queue × Thread) : Type 0 where
  linked_list : IsLinked (cells m.0)
  grown : Grows c (cells m.0)
  placed : Placed (cells m.0) r m.1

move-Moved :
    (q : Queue) (r : FlowPacket) (t : Thread)
    → IsLinked (cells q)
    → Placed (cells q) r t
    → Moved (cells q) r (move q t)
unfolding move
move-Moved q r (inserting t) ok (k, carries) =
    let step = insert_move-Stepped q ok t k in
    record {
      linked_list = step.linked_list;
      grown = step.grown;
      placed = (step.knows, insert_move-Carries r q t carries);
    }
move-Moved q r (popping t) ok k = absurd k
move-Moved q r (clearing t) ok k = absurd k

Placed-Grows : (c d : Cells) (r : FlowPacket) (t : Thread) → Grows c d → Placed c r t → Placed d r t
Placed-Grows c d r (inserting t) g (k, carries) = (Knows-Grows c d g t k, carries)
Placed-Grows c d r (popping t) g k = k
Placed-Grows c d r (clearing t) g k = k

-- What holds at every point of a run that starts from the queue `q`.
pub record IsSound (packets : ℕ → FlowPacket) (q : Queue) (s : System) : Type 0 where
  pub linked_list : IsLinked (cells s.queue)
  pub grown : Grows (cells q) (cells s.queue)
  pub placed : (i : ℕ) → Placed (cells s.queue) (packets i) (s.threads i)

turn-IsSound :
    (packets : ℕ → FlowPacket) (q : Queue) (i : ℕ) (s : System)
    → IsSound packets q s
    → IsSound packets q (turn i s)
unfolding turn
turn-IsSound packets q i s ok =
    let m = move-Moved s.queue (packets i) (s.threads i) ok.linked_list (ok.placed i) in
    record {
      linked_list = m.linked_list;
      grown = Grows-trans (cells q) (cells s.queue) _ ok.grown m.grown;
      placed = λ j. elim (Bool-cases (i == j)) [
        | inl y ↦ let same_thread : i ≡ j = ground arith in rw (y, ← same_thread) m.placed
        | inr o ↦
            rw o (Placed-Grows (cells s.queue) _ (packets j) (s.threads j) m.grown (ok.placed j))
      ];
    }

run-IsSound :
    (packets : ℕ → FlowPacket) (q : Queue) (is : List ℕ) (s : System)
    → IsSound packets q s
    → IsSound packets q (run is s)
unfolding run
run-IsSound packets q [] s ok = ok
run-IsSound packets q (i ∷ is) s ok =
    run-IsSound packets q is (turn i s) (turn-IsSound packets q i s ok)

-- No packet of the list or of an insertion that is over is lost, the ids descend, no thread uses a
-- bad pointer, and a thread is refused only where the list has its id.
pub record IsKept (packets : ℕ → FlowPacket) (q : Queue) (s : System) : Type 0 where
  pub linked_list : IsLinked (cells s.queue)
  pub old : (p : FlowPacket) → Holds (cells q) p → Holds (cells s.queue) p
  pub over :
      (i : ℕ) (p : FlowPacket)
      → s.threads i ≡ inserting (inserted p)
      → (p ≡ packets i) × Holds (cells s.queue) p
  pub refusal :
      (i : ℕ) (p : FlowPacket)
      → s.threads i ≡ inserting (refused p)
      → (p ≡ packets i) × HoldsId (cells s.queue) (id p)
  pub sound : (i : ℕ) → s.threads i ≢ inserting crashed

IsSound-IsKept :
    (packets : ℕ → FlowPacket) (q : Queue) (s : System) → IsSound packets q s → IsKept packets q s
IsSound-IsKept packets q s ok = record {
  linked_list = ok.linked_list;
  old = λ p h. Holds-Grows (cells q) (cells s.queue) ok.grown p h;
  over = λ i p e. let k = rw e at (ok.placed i) in (k.1, k.0);
  refusal = λ i p e. let k = rw e at (ok.placed i) in (k.1, k.0);
  sound = λ i e. let k = rw e at (ok.placed i) in k.0;
}

-- The threads at the start: each calls Insert with its packet.
abbrev pub inserters : (ℕ → FlowPacket) → Queue → System
inserters packets q = record { queue = q; threads = λ i. inserting (entering (packets i)) }

pub inserters-IsSound :
    (packets : ℕ → FlowPacket) (q : Queue) (is : List ℕ)
    → IsLinked (cells q)
    → IsSound packets q (run is (inserters packets q))
inserters-IsSound packets q is ok =
    run-IsSound packets q is (inserters packets q)
      (record { linked_list = ok; grown = Grows-refl (cells q); placed = λ i. (tt, refl) })

-- Threads that call Insert of the lock-free queue, each with its packet, on a list that is not
-- empty and whose links go down in id: after any schedule of their accesses the links still go
-- down and reach every node, no packet that was there is lost, a thread whose Insert has returned
-- has its packet in the list, one that has thrown was refused for an id that is in the list, and
-- none has used a null pointer.
pub inserts-IsKept :
    (packets : ℕ → FlowPacket) (q : Queue) (is : List ℕ)
    → IsLinked (cells q)
    → IsKept packets q (run is (inserters packets q))
inserts-IsKept packets q is ok = IsSound-IsKept packets q _ (inserters-IsSound packets q is ok)
