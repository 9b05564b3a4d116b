-- ===== src/Tests/LockFree.antt =====
-- The theorems on the lock-free queue at concrete inputs.
use multipath_proxy.Prelude.{
  ℕ, zero, suc, ◌≡◌, refl, List, [], ◌∷◌, ◌++◌, replicate, Option, none, some, arith, length,
  rev_append, inl,
}
use multipath_proxy.Packet.FlowPacket.{FlowPacket}
use multipath_proxy.Packet.Layout.{read_flow_header, header_bytes, flow_fields_bytes}
use multipath_proxy.Packet.FlowPacket.{header}
use multipath_proxy.Collections.LockFree.{
  Queue, new, allocate, entering, inserted, refused, count_call, insert_move, compare_head, walk,
  follow, link,
}
use multipath_proxy.Collections.LockFree.Linked.{single-IsLinked}
use multipath_proxy.Collections.LockFree.Threads.{System, inserting, run, turn, move, chain}
use multipath_proxy.Collections.LockFree.Schedules.{IsKept, inserters, inserts-IsKept}
use multipath_proxy.Collections.LockFree.Progress.{HasEnded, inserts-HasEnded}
use multipath_proxy.Collections.LockFree.Races.{IsShort, At, have_loaded, inserts_race}
use multipath_proxy.Outcome.{done}
use multipath_proxy.Collections.BlockingQueue.{BlockingQueue, empty_queue}
use multipath_proxy.Collections.BlockingQueue.Delivery
use multipath_proxy.Collections.BlockingQueue.Delivery.{Call, inserts, pops, AreNew}
use multipath_proxy.Collections.LockFree.Pop.{pop_move}
use multipath_proxy.Collections.LockFree.Alone.{Ends, alone, calls_alone}
use multipath_proxy.Collections.LockFree.Alone.Chain.{IsList}
use multipath_proxy.Collections.LockFree.Alone.SameRuns.{same_as_blocking}
use multipath_proxy.Collections.LockFree.Alone.Refused.{insert_refused}
use multipath_proxy.Tests.Queue.{p0, p1, id-p0, id-p1}
use multipath_proxy.Tests.Packets.{packet_of}

abbrev packet : ℕ → FlowPacket
packet i = packet_of i (7 ∷ [])

-- A queue with the packet 1.
abbrev one_packet : Queue
one_packet = record (allocate (new 0) (packet 1) none) { head = some 0 }

-- The packets 0 and 2 are inserted, a step of each in turn.
abbrev packets : ℕ → FlowPacket
packets i = elim i [ zero ↦ packet 0 | suc _ ↦ packet 2 ]

abbrev in_turn : List ℕ
in_turn = 0 ∷ 1 ∷ 0 ∷ 1 ∷ 0 ∷ 1 ∷ 0 ∷ 1 ∷ []

inserts-IsKept_example : IsKept packets one_packet (run in_turn (inserters packets one_packet))
unfolding new
inserts-IsKept_example = inserts-IsKept packets one_packet in_turn (single-IsLinked (packet 1))

inserts-HasEnded_example :
    (k : ℕ) × HasEnded
      ((run (replicate k 0) (run in_turn (inserters packets one_packet))).threads 0)
unfolding new
inserts-HasEnded_example =
    inserts-HasEnded packets one_packet in_turn 0 (single-IsLinked (packet 1))

-- Both packets end up in the list.
abbrev both_in : System
both_in = run (in_turn ++ (replicate 6 0 ++ replicate 6 1)) (inserters packets one_packet)

both_in_chain : chain 4 both_in.queue.nodes both_in.queue.head ≡ packet 2 ∷ packet 1 ∷ packet 0 ∷ []
unfolding run turn move insert_move compare_head walk follow link chain new header read_flow_header
    header_bytes flow_fields_bytes
both_in_chain = refl

-- Two threads have loaded the head, and both return.
abbrev race : System
race = run (replicate 4 0 ++ replicate 4 1) (have_loaded packets (new 0))

inserts_race_example : IsShort race.queue × ((i : ℕ) → At packets i (race.threads i))
unfolding new
inserts_race_example = inserts_race packets (new 0) (replicate 4 0 ++ replicate 4 1) refl

both_returned :
    (race.threads 0 ≡ inserting (inserted (packet 0)))
    × (race.threads 1 ≡ inserting (inserted (packet 2)))
    × (chain 3 race.queue.nodes race.queue.head ≡ packet 2 ∷ [])
unfolding run turn move insert_move new chain
both_returned = (refl, refl, refl)

-- One thread inserts the packets 1 and 0, and tries to take one out after each, and once more.
abbrev some_calls : List Call
some_calls = inserts p1 ∷ pops ∷ inserts p0 ∷ pops ∷ pops ∷ []

some_calls-AreNew : AreNew 0 [] (p1 ∷ p0 ∷ [])
some_calls-AreNew = (
  omega arith,
  omega (arith, id-p1),
  tt,
  (omega (arith, id-p0, id-p1), tt),
  (omega arith, omega (arith, id-p0), tt, tt, tt),
)

same_as_blocking_example :
    (out : List FlowPacket) × (b : BlockingQueue) × (q : Queue) × (Delivery.run empty_queue
        some_calls
      ≡ done (out, b))
    × (calls_alone 16 (new 0) some_calls ≡ some (out, q))
    × (chain (length b.deque) q.nodes q.head ≡ rev_append b.deque [])
    × (q.size_ ≡ b.size_)
    × (q.byte_size ≡ b.byte_size)
same_as_blocking_example =
    same_as_blocking 0 16 some_calls some_calls-AreNew
      (omega (arith, id-p1), (omega (arith, id-p0), tt)) (omega arith)

-- The two packets come out in order.
abbrev packets_out : Option (List FlowPacket × Queue) → Option (List FlowPacket)
packets_out none = none
packets_out (some (out, q)) = some out

calls_alone_out : packets_out (calls_alone 16 (new 0) some_calls) ≡ some (p0 ∷ p1 ∷ [])
unfolding calls_alone alone move insert_move compare_head walk follow link pop_move new header
    read_flow_header header_bytes flow_fields_bytes
calls_alone_out = refl

-- A second packet with the id of the only one.
one_packet-IsList : IsList one_packet ((0, packet 1) ∷ [])
unfolding new
one_packet-IsList = record {
  at_head = refl;
  chain = (refl, tt);
  distinct = (tt, tt);
  inside = (omega arith, tt);
}

insert_refused_example :
    Ends 4 one_packet
      (inserting (entering (packet 1)))
      (count_call one_packet)
      (inserting (refused (packet 1)))
insert_refused_example =
    insert_refused one_packet (packet 1) (0, packet 1) [] one_packet-IsList (omega arith, tt)
      (inl refl)
