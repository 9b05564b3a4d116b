-- ===== src/Collections/LockFree/Progress.antt =====
-- A thread that inserts comes to an end when it runs alone
-- (src/collections/LockFreeFlowPacketQueue.cpp).
use multipath_proxy.Prelude.{ℕ, zero, suc, ◌≡◌, refl, List, ◌==◌, true, ap, ◌∙◌, replicate, arith}
use multipath_proxy.Packet.FlowPacket.{FlowPacket}
use multipath_proxy.Collections.LockFree.{Queue, InsertAt, insert_move}
use multipath_proxy.Collections.LockFree.Linked.{cells, IsLinked, if-true}
use multipath_proxy.Collections.LockFree.Solo.{solo, IsOver, insert-Finishes}
use multipath_proxy.Collections.LockFree.Threads.{
  Thread, inserting, popping, clearing, System, move, turn, run,
}
use multipath_proxy.Collections.LockFree.Schedules.{Placed, inserters, inserters-IsSound}

-- Insert has returned or thrown.
abbrev pub HasEnded : Thread → Type 0
HasEnded (inserting t) = IsOver t
HasEnded (popping t) = ⊥
HasEnded (clearing t) = ⊥

==_refl : (i : ℕ) → (i == i) ≡ true
==_refl i = ground arith

turn-thread :
    (i : ℕ) (s : System) (t : InsertAt)
    → s.threads i ≡ inserting t
    → ((turn i s).queue ≡ (insert_move s.queue t).0)
      × ((turn i s).threads i ≡ inserting (insert_move s.queue t).1)
unfolding turn move
turn-thread i s t e =
    (ap (λ u. (move s.queue u).0) e, if-true _ _ (==_refl i) ∙ ap (λ u. (move s.queue u).1) e)

run-solo :
    (k i : ℕ) (s : System) (t : InsertAt)
    → s.threads i ≡ inserting t
    → (run (replicate k i) s).threads i ≡ inserting (solo k s.queue t).1
unfolding run solo
run-solo zero i s t e = e
run-solo (suc k) i s t e =
    let (q, u) = turn-thread i s t e in
    run-solo k i (turn i s) (insert_move s.queue t).1 u
    ∙ ap (λ r. inserting (solo k r (insert_move s.queue t).1).1) q

alone :
    (i : ℕ) (packet : FlowPacket) (s : System) (t : Thread)
    → s.threads i ≡ t
    → IsLinked (cells s.queue)
    → Placed (cells s.queue) packet t
    → (k : ℕ) × HasEnded ((run (replicate k i) s).threads i)
alone i packet s (inserting t) e ok (knows, _) =
    let (k, over) = insert-Finishes s.queue ok t knows in (k, rw (run-solo k i s t e) over)
alone i packet s (popping t) e ok placed = absurd placed
alone i packet s (clearing t) e ok placed = absurd placed

-- After any schedule of threads that call Insert of the lock-free queue, on a list that is not
-- empty and whose links go down in id, each thread that then runs alone ends its Insert in
-- finitely many steps.
pub inserts-HasEnded :
    (packets : ℕ → FlowPacket) (q : Queue) (is : List ℕ) (i : ℕ)
    → IsLinked (cells q)
    → (k : ℕ) × HasEnded ((run (replicate k i) (run is (inserters packets q))).threads i)
inserts-HasEnded packets q is i ok =
    let sound = inserters-IsSound packets q is ok in
    alone i (packets i) (run is (inserters packets q)) _ refl sound.linked_list (sound.placed i)
