-- ===== src/Tests/Flows.antt =====
-- The theorems on flows and their map at concrete inputs.
use multipath_proxy.Prelude.{false, ℕ, ◌≡◌, refl, List, [], ◌∷◌, some, none, arith}
use multipath_proxy.Net.SockAddr.{SockAddrIn, of_words}
use multipath_proxy.Net.Transport.{received, sent}
use multipath_proxy.Net.Flow
use multipath_proxy.Net.Flow.{
  Round, Flow, Handled, returned, raised, crashed, Event, writes, receives, drains, forwards,
  closes_send, closes_bond, run, step, go_on, recv_from_connection, after, read_data,
  close_or_queue, queue_packet, send_to_bond, send_to_connection, write_to_flow, close_send,
  close_bond, settle, choose_path,
}
use multipath_proxy.Net.Flow.Closing.{ClosesOnce, run-ClosesOnce}
use multipath_proxy.Net.Flow.Missed.{Survives, never_deleted}
use multipath_proxy.Collections.FlowMap.{FlowMap, same_pair, pair, lookup, find, insert}
use multipath_proxy.Collections.FlowMap.Updates.{Updates, ErasesTo, insert-erase-Updates}
use multipath_proxy.Prelude.{map, true}
use multipath_proxy.Packet.Buffer
use multipath_proxy.Packet.Buffer.{make_packet}
use multipath_proxy.Packet.FlowHeader
use multipath_proxy.Packet.Layout.{
  header_bytes, flow_fields_bytes, flow_header_bytes, read_flow_header,
}
use multipath_proxy.Packet.FlowPacket
use multipath_proxy.Packet.FlowPacket.{header, size, write_at, store_size}
use multipath_proxy.Collections.BlockingQueue
use multipath_proxy.Collections.BlockingQueue.{take_front, place, scan_back}
use multipath_proxy.Net.Flow.Satellite.{Stays, run-Stays}
use multipath_proxy.Worker.Looper.{Looper}
use multipath_proxy.Net.Connection.{fresh_connection}
use multipath_proxy.Net.Flow.Life.{FlowParts, FlowHost, IsGone, destroy_flow, destroy_flow-IsGone}
use multipath_proxy.Tests.Connections.{simple, table}
use multipath_proxy.Tests.Heap.{heap}
use multipath_proxy.Tests.Packets.{packet_of}

abbrev here : SockAddrIn
here = of_words 1 80

abbrev there : SockAddrIn
there = of_words 2 8080

abbrev elsewhere : SockAddrIn
elsewhere = of_words 3 8080

-- A map with one flow, which is a number here.
abbrev one_flow : FlowMap ℕ
one_flow = record { entries = (pair here there, 7) ∷ []; byte_size = 0 }

insert-erase-Updates_example :
    Updates here there (some 7) one_flow (insert here there 8 one_flow)
    × ErasesTo here there one_flow
unfolding find lookup same_pair
insert-erase-Updates_example = insert-erase-Updates here there 8 one_flow (refl, tt)

-- A flow whose loopers have stopped.
abbrev stopped : Looper
stopped = record { running = false; has_thread = true }

abbrev parts : FlowParts
parts = record {
  source = here;
  destination = there;
  connection = fresh_connection 7 3 0;
  recv_looper = stopped;
  send_looper = stopped;
  bond_looper = stopped;
}

abbrev flow_host : FlowHost simple ℕ
flow_host = record {
  host = record { world = 3 ∷ 4 ∷ []; connections = (3, 7) ∷ (4, 8) ∷ [] };
  flows = one_flow;
}

destroy_flow-IsGone_example :
    IsGone simple ℕ table parts flow_host (destroy_flow simple ℕ parts flow_host)
unfolding find lookup same_pair
destroy_flow-IsGone_example =
    destroy_flow-IsGone simple ℕ table parts flow_host 7 (refl, tt) refl (refl, refl) (refl, refl)
      (refl, refl)

-- A round of SendToBond at a time.
abbrev at : ℕ → Round
at t = record { now = t; later = t; fails = none }

-- The endpoint sends three bytes and ends, and the bond's close packet comes; both senders run.
abbrev both_found : List Event
both_found =
    receives (received (7 ∷ 8 ∷ 9 ∷ []))
    ∷ receives (received [])
    ∷ forwards (at 1000)
    ∷ writes (packet_of 0 [])
    ∷ drains (sent 0)
    ∷ forwards (at 1001)
    ∷ []

abbrev tests : List Event
tests = closes_send none ∷ closes_bond none ∷ []

-- One sender after the other.
abbrev in_turn : List Event
in_turn =
    receives (received (7 ∷ 8 ∷ 9 ∷ []))
    ∷ receives (received [])
    ∷ forwards (at 1000)
    ∷ writes (packet_of 0 [])
    ∷ drains (sent 0)
    ∷ forwards (at 1001)
    ∷ closes_send none
    ∷ closes_send none
    ∷ closes_bond none
    ∷ closes_bond none
    ∷ []

run-ClosesOnce_example : ClosesOnce (run heap (Flow.make here there 0) in_turn)
run-ClosesOnce_example = run-ClosesOnce heap here there 0 in_turn (omega arith, (omega arith, tt))

abbrev state_of : Handled → Flow
state_of (returned s) = s
state_of (raised s e) = s
state_of (crashed x) = Flow.make here there 0

deleted_in_turn : (state_of (run heap (Flow.make here there 0) in_turn)).deletions ≡ 1
unfolding run step go_on recv_from_connection after read_data close_or_queue queue_packet
    send_to_bond send_to_connection write_to_flow close_send close_bond settle choose_path
    FlowPacket.make FlowPacket.resize write_at store_size make_packet Buffer.make Buffer.resize
    FlowHeader.new BlockingQueue.insert BlockingQueue.pop take_front place scan_back header
    read_flow_header header_bytes flow_fields_bytes flow_header_bytes
deleted_in_turn = refl

abbrev waiting : Flow
waiting = state_of (run heap (Flow.make here there 0) both_found)

never_deleted_example : Survives (run heap waiting (closes_send none ∷ closes_bond none ∷ tests))
unfolding run step go_on recv_from_connection after read_data close_or_queue queue_packet
    send_to_bond send_to_connection write_to_flow close_send close_bond settle choose_path
    FlowPacket.make FlowPacket.resize write_at store_size make_packet Buffer.make Buffer.resize
    FlowHeader.new BlockingQueue.insert BlockingQueue.pop take_front place scan_back header
    read_flow_header header_bytes flow_fields_bytes flow_header_bytes
never_deleted_example =
    never_deleted heap here there 0 both_found waiting (omega arith, (omega arith, tt)) refl
      (packet_of 0 []) _ refl refl none none tests tt

-- A flow that has just sent by satellite, with one packet more.
abbrev busy : Flow
busy = record (Flow.make here there 0) {
  satellite = true;
  last_send = 1000;
  to_bond = record {
    next_available = true;
    deque = packet_of 0 (7 ∷ []) ∷ [];
    size_ = 1;
    current_id = 0;
    byte_size = 1;
  };
}

busy_size : size (packet_of 0 (7 ∷ [])) ≡ 1
unfolding header read_flow_header header_bytes flow_fields_bytes
busy_size = refl

abbrev some_rounds : List Round
some_rounds = at 1000 ∷ record { now = 1400; later = 1402; fails = none } ∷ []

run-Stays_example : Stays 1000 [] (run heap busy (map forwards some_rounds))
run-Stays_example =
    run-Stays 1000 [] heap some_rounds busy
      (record {
        flagged = refl;
        recent = omega arith;
        data_only = (omega (arith, busy_size), tt);
        no_more = refl;
      })
      ((omega arith, omega arith, omega arith), ((omega arith, omega arith, omega arith), tt))
