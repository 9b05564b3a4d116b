-- ===== src/Tests/Queue.antt =====
-- The theorems on the queue at concrete inputs.
use mathlib.Core.List.{mem-cons_self}
use mathlib.Core.List.Perm
use multipath_proxy.Prelude.{
  ◌^◌, ◌<◌, ◌≡◌, ◌≢◌, refl, List, [], ◌∷◌, ◌++◌, map, arith, replicate, true,
}
use multipath_proxy.Outcome.{done, fault, blocked}
use multipath_proxy.Packet.Layout.{read_flow_header, header_bytes, flow_fields_bytes}
use multipath_proxy.Packet.FlowPacket.{FlowPacket, header, id}
use multipath_proxy.Collections.Sorted.{insert_sorted, Small, Above, Absent, total_size}
use multipath_proxy.Collections.BlockingQueue.{BlockingQueue, empty_queue, insert, pop, clear}
use multipath_proxy.Collections.BlockingQueue.Invariant.{
  IsValid, IsMeasured, insert-IsValid, PopResult, pop-PopResult, clear-not-IsMeasured,
}
use multipath_proxy.Collections.BlockingQueue.Delivery.{
  Call, inserts, pops, run, Delivered, run-Delivered, AreNew,
}
use multipath_proxy.Collections.BlockingQueue.Reorder.{run_reorders, empty-IsValid}
use multipath_proxy.Collections.BlockingQueue.Progress.{pop_progress}
use multipath_proxy.Tests.Packets.{packet_of}

abbrev pub p0 : FlowPacket
p0 = packet_of 0 (7 ∷ [])

abbrev pub p1 : FlowPacket
p1 = packet_of 1 (8 ∷ 8 ∷ [])

abbrev p2 : FlowPacket
p2 = packet_of 2 (9 ∷ [])

pub id-p0 : id p0 ≡ 0
unfolding header read_flow_header header_bytes flow_fields_bytes
id-p0 = refl

pub id-p1 : id p1 ≡ 1
unfolding header read_flow_header header_bytes flow_fields_bytes
id-p1 = refl

id-p2 : id p2 ≡ 2
unfolding header read_flow_header header_bytes flow_fields_bytes
id-p2 = refl

-- The packets with the ids 0 and 2 wait for each other's neighbour.
abbrev waiting : BlockingQueue
waiting = record {
  next_available = true;
  deque = p0 ∷ p2 ∷ [];
  size_ = 2;
  current_id = 0;
  byte_size = 2;
}

waiting-Above : Above 0 (p0 ∷ p2 ∷ [])
waiting-Above = (omega arith, (omega (arith, id-p0, id-p2), tt))

waiting-IsValid : IsValid waiting
unfolding header read_flow_header header_bytes flow_fields_bytes
waiting-IsValid = record { ascending = waiting-Above; counted = refl; available = refl }

waiting-IsMeasured : IsMeasured waiting
unfolding header read_flow_header header_bytes flow_fields_bytes
waiting-IsMeasured = refl

p1-Absent : Absent (id p1) (p0 ∷ p2 ∷ [])
p1-Absent = (omega (arith, id-p0, id-p1), (omega (arith, id-p1, id-p2), tt))

waiting-Small : Small (p0 ∷ p2 ∷ [])
waiting-Small = (omega (arith, id-p0), (omega (arith, id-p2), tt))

insert-IsValid_example :
    IsValid (insert p1 waiting)
    × ((insert p1 waiting).deque ≡ insert_sorted p1 (p0 ∷ p2 ∷ []))
    × ((insert p1 waiting).current_id ≡ 0)
insert-IsValid_example = insert-IsValid p1 waiting waiting-IsValid (omega arith, p1-Absent)

pop-PopResult_example : PopResult waiting
pop-PopResult_example = pop-PopResult waiting waiting-IsValid waiting-Small

waiting-total : (0 < total_size waiting.deque) × (total_size waiting.deque < 2 ^ 64)
unfolding header read_flow_header header_bytes flow_fields_bytes
waiting-total = (omega arith, omega arith)

clear-not-IsMeasured_example : ¬ IsMeasured (clear waiting)
clear-not-IsMeasured_example =
    clear-not-IsMeasured waiting waiting-IsMeasured waiting-total.0 waiting-total.1

abbrev calls : List Call
calls = pops ∷ inserts p2 ∷ pops ∷ inserts p0 ∷ pops ∷ inserts p1 ∷ pops ∷ []

calls-AreNew : AreNew 0 [] (p2 ∷ p0 ∷ p1 ∷ [])
calls-AreNew = (
  omega arith,
  omega (arith, id-p2),
  tt,
  (omega (arith, id-p0, id-p2), (omega (arith, id-p1, id-p2), tt)),
  (
    omega arith,
    omega (arith, id-p0),
    tt,
    (omega (arith, id-p0, id-p1), tt),
    (omega arith, omega (arith, id-p1), tt, tt, tt),
  ),
)

run-Delivered_example : Delivered empty_queue calls
run-Delivered_example = run-Delivered calls empty_queue empty-IsValid tt calls-AreNew

run_reorders_example :
    (last : BlockingQueue) × (run empty_queue (map inserts (p1 ∷ p0 ∷ p2 ∷ []) ++ replicate 3 pops)
      ≡ done (p0 ∷ p1 ∷ p2 ∷ [], last))
    × (last.deque ≡ [])
    × IsValid last
run_reorders_example =
    run_reorders (p0 ∷ p1 ∷ p2 ∷ []) (p1 ∷ p0 ∷ p2 ∷ []) (id-p0, (id-p1, (id-p2, tt)))
      (Perm.swap p0 p1 (p2 ∷ []))
      (
        omega arith,
        omega (arith, id-p1),
        tt,
        (omega (arith, id-p0, id-p1), (omega (arith, id-p1, id-p2), tt)),
        (
          omega arith,
          omega (arith, id-p0),
          tt,
          (omega (arith, id-p0, id-p2), tt),
          (omega arith, omega (arith, id-p2), tt, tt, tt),
        ),
      )

p0-AreNew : AreNew 0 [] (p0 ∷ [])
p0-AreNew = (omega arith, omega (arith, id-p0), tt, tt, tt)

one_call : run empty_queue (inserts p0 ∷ []) ≡ done ([], insert p0 empty_queue)
unfolding run
one_call = refl

pop_progress_example : pop (insert p0 empty_queue) ≢ fault blocked
unfolding insert
pop_progress_example =
    pop_progress (inserts p0 ∷ []) p0 [] (insert p0 empty_queue) p0-AreNew mem-cons_self one_call
      id-p0
