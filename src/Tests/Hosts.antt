-- ===== src/Tests/Hosts.antt =====
-- The theorem on two hosts at a concrete input: the endpoint sends three bytes in two reads.
use mathlib.Core.List.{Perm}
use mathlib.Core.List.Perm
use mathlib.Core.Path.{subst}
use multipath_proxy.Prelude.{
  none, ℕ, ◌^◌, ◌≡◌, refl, sym, ap, List, [], ◌∷◌, ◌++◌, map, arith, replicate,
}
use multipath_proxy.Packet.Buffer
use multipath_proxy.Packet.Buffer.{make_packet}
use multipath_proxy.Packet.FlowHeader
use multipath_proxy.Packet.Layout.{
  header_bytes, flow_fields_bytes, flow_header_bytes, read_flow_header,
}
use multipath_proxy.Packet.FlowPacket
use multipath_proxy.Packet.FlowPacket.{FlowPacket, header, write_at, store_size}
use multipath_proxy.Net.SockAddr.{SockAddrIn, of_words}
use multipath_proxy.Net.Transport.{received}
use multipath_proxy.Collections.BlockingQueue.{take_front, place, scan_back}
use multipath_proxy.Collections.BlockingQueue
use multipath_proxy.Collections.BlockingQueue.Delivery.{Call, inserts, pops, arrivals}
use multipath_proxy.Net.Send.Transfer.{transfer}
use multipath_proxy.Net.Flow.{
  Round, Flow, Event, receives, forwards, returned, make, run, step, recv_from_connection, after,
  read_data, close_or_queue, queue_packet, send_to_bond, settle, choose_path,
}
use multipath_proxy.Net.Flow.Numbered.{FitsWords, AreMade, numbered}
use multipath_proxy.Net.Flow.Outgoing.{reads, GoOut}
use multipath_proxy.Net.Flow.Outgoing.Runs.{sent_out}
use multipath_proxy.Net.Flow.Incoming.{event_of}
use multipath_proxy.Net.EndToEnd.OnPath.{OnPath, nothing, packet, items_of, on_path}
use multipath_proxy.Net.EndToEnd.Bytes.{joined, in_order, AreMade-rev_append, Crossed, end_to_end}
use multipath_proxy.Tests.Heap.{heap, heap-Grants, slow, slow-Receives, slow-Sends}

abbrev here : SockAddrIn
here = of_words 1 80

abbrev there : SockAddrIn
there = of_words 2 8080

here-FitsWords : FitsWords here
here-FitsWords = record { addr_fits = omega arith; port_fits = omega arith }

there-FitsWords : FitsWords there
there-FitsWords = record { addr_fits = omega arith; port_fits = omega arith }

-- A round of SendToBond at a time.
abbrev at : ℕ → Round
at t = record { now = t; later = t; fails = none }

abbrev some_events : List Event
some_events = receives (received (7 ∷ 8 ∷ [])) ∷ forwards (at 5) ∷ receives (received (9 ∷ [])) ∷ []

some_events-GoOut : GoOut some_events
some_events-GoOut = ((omega arith, omega arith), (refl, ((omega arith, omega arith), tt)))

-- Where the first flow ends.
sender :
    (s : Flow) × (run heap (make here there 0) (some_events ++ replicate 3 (forwards (at 9)))
      ≡ returned s)
    × Perm (s.ter ++ s.sat) (numbered here there 0 (reads heap (make here there 0) some_events))
    × AreMade s.ter
    × AreMade s.sat
sender =
    sent_out heap heap-Grants here there here-FitsWords there-FitsWords 0 3 (at 9) some_events refl
      some_events-GoOut (omega arith) (omega arith)

-- A path without heartbeats.
plain : (ps : List FlowPacket) → OnPath ps ps
plain [] = nothing
plain (p ∷ ps) = packet p p refl (plain ps)

abbrev OverPath : (given r : List FlowPacket) → Type 0
OverPath given r =
    Crossed slow slow heap (2 ^ 16) slow-Sends slow-Receives heap-Grants (omega arith)
      (λ bytes. (bytes, [])) (λ bytes. refl) given (in_order given) (plain (in_order given)) r

over_path : (given : List FlowPacket) → AreMade given → (r : List FlowPacket) × OverPath given r
over_path given made =
    let on = plain (in_order given) in
    let (items, carry, _) = on_path on (AreMade-rev_append given [] made tt) in
    let (s, streamed) =
      transfer slow slow heap (2 ^ 16) (in_order given) (items_of on) slow-Sends slow-Receives
        heap-Grants items carry (omega arith) (λ bytes. (bytes, [])) (λ bytes. refl) ([], [])
        refl in
    (
      streamed.packets,
      record {
        start = ([], []);
        end = s.conn;
        last = streamed.conn;
        empty = refl;
        sent = s.ends;
        read = streamed.ends;
      },
    )

abbrev by_ter : (r : List FlowPacket) × OverPath (sender.0).ter r
by_ter = over_path (sender.0).ter sender.3

abbrev by_sat : (r : List FlowPacket) × OverPath (sender.0).sat r
by_sat = over_path (sender.0).sat sender.4

-- The second flow tries to send before anything has arrived.
abbrev some_calls : List Call
some_calls = pops ∷ map inserts (by_ter.0 ++ by_sat.0)

arrivals-inserts : (ps : List FlowPacket) → arrivals (map inserts ps) ≡ ps
arrivals-inserts [] = refl
arrivals-inserts (p ∷ ps) = ap (λ l. p ∷ l) (arrivals-inserts ps)

end_to_end_example :
    (d : Flow) × (run heap
        (make there here 0)
        (map (event_of 1024) (some_calls ++ replicate 3 pops))
      ≡ returned d)
    × (d.delivered ≡ joined (reads heap (make here there 0) some_events))
end_to_end_example =
    end_to_end slow slow heap (2 ^ 16) slow-Sends slow-Receives heap-Grants (omega arith)
      (λ bytes. (bytes, [])) (λ bytes. refl) here there 0 3 (at 9) some_events sender.0 refl
      here-FitsWords there-FitsWords some_events-GoOut (omega arith) (omega arith) sender.1
      (in_order (sender.0).ter) (in_order (sender.0).sat) (plain (in_order (sender.0).ter))
      (plain (in_order (sender.0).sat)) by_ter.0 by_sat.0 by_ter.1 by_sat.1 there here 0 1024 3
      some_calls
      (subst (λ ps. Perm ps (by_ter.0 ++ by_sat.0)) (sym (arrivals-inserts (by_ter.0 ++ by_sat.0)))
        (Perm.refl (by_ter.0 ++ by_sat.0)))
      (omega arith) (omega arith)

-- What is read is what the events say.
some_reads : joined (reads heap (make here there 0) some_events) ≡ 7 ∷ 8 ∷ 9 ∷ []
unfolding reads step recv_from_connection after read_data close_or_queue queue_packet send_to_bond
    settle choose_path FlowPacket.make FlowPacket.resize write_at store_size make_packet Buffer.make
    Buffer.resize FlowHeader.new BlockingQueue.insert BlockingQueue.pop take_front place scan_back
    header read_flow_header header_bytes flow_fields_bytes flow_header_bytes
some_reads = refl
