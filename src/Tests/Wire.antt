-- ===== src/Tests/Wire.antt =====
-- The theorems on connections at concrete inputs.
use multipath_proxy.Prelude.{
  ℕ, ◌^◌, ◌≡◌, refl, List, [], ◌∷◌, ◌++◌, arith, replicate, length-replicate,
}
use multipath_proxy.Outcome.{done, fault, out_of_bounds}
use multipath_proxy.Packet.Buffer.{Buffer, IsValid}
use multipath_proxy.Packet.HeartBeat.{heart_beat_header}
use multipath_proxy.Packet.Layout.{header_bytes}
use multipath_proxy.Net.Receive.{stuck, receive}
use multipath_proxy.Net.Receive.Phases.{IsHead, IsFrame, frame}
use multipath_proxy.Net.Receive.Frames.{Framed, receive-frame}
use multipath_proxy.Net.Receive.Ends.{receive_stuck, receive_overruns}
use multipath_proxy.Net.Receive.Stream.{Item, beat, flow, AreItems, stream, Streamed, receive_calls}
use multipath_proxy.Net.Send.{send_to_connection}
use multipath_proxy.Net.Send.Loop.{Sent, send_to_connection-Sent}
use multipath_proxy.Net.Send.Transfer.{Carries, AllCarry, send_calls, transfer}
use multipath_proxy.Tests.Heap.{heap, heap-Grants, slow, slow-Receives, slow-Sends, slow-Ends}
use multipath_proxy.Tests.Packets.{head, head-Fits, packet_of, packet_long}

abbrev body : List ℕ
body = 7 ∷ 8 ∷ 9 ∷ []

body-IsFrame : IsFrame (head 5 3) body
body-IsFrame = record {
  is_head = record { fits = head-Fits; is_flow = refl };
  announced = refl;
  small = omega arith;
}

receive-frame_example :
    Framed slow
      (receive slow heap 1025 (frame (head 5 3) body ++ (1 ∷ []), []))
      (head 5 3)
      body
      (1 ∷ [])
receive-frame_example =
    receive-frame slow heap 1025 (head 5 3) body (1 ∷ []) slow-Receives heap-Grants (omega arith)
      body-IsFrame (frame (head 5 3) body ++ (1 ∷ []), []) refl

abbrev items : List Item
items = beat ∷ flow (head 5 3) body ∷ beat ∷ []

items-AreItems : AreItems items
items-AreItems = (tt, (body-IsFrame, (tt, tt)))

packet-IsValid : IsValid (packet_of 5 body)
packet-IsValid = record { sized = packet_long 5 body; small = omega arith }

send_to_connection-Sent_example :
    Sent slow
      (send_to_connection slow 100 ([], 1 ∷ []) (packet_of 5 body))
      (packet_of 5 body).data_
      (1 ∷ [])
send_to_connection-Sent_example =
    send_to_connection-Sent slow slow-Sends 100 ([], 1 ∷ []) (packet_of 5 body) packet-IsValid
      (omega arith)

-- A heartbeat's buffer.
abbrev beat_buffer : Buffer
beat_buffer = record { size = 4; data_ = header_bytes heart_beat_header }

abbrev buffers : List Buffer
buffers = beat_buffer ∷ packet_of 5 body ∷ beat_buffer ∷ []

beat-Carries : Carries beat_buffer beat
unfolding header_bytes
beat-Carries = record { valid = record { sized = refl; small = omega arith }; bytes = refl }

buffers-AllCarry : AllCarry buffers items
buffers-AllCarry =
    (beat-Carries, (record { valid = packet-IsValid; bytes = refl }, (beat-Carries, tt)))

transfer_example :
    (s : Sent slow (send_calls slow (2 ^ 16) ([], []) buffers) (stream items) []) × Streamed slow
      (receive_calls slow heap (2 ^ 16) 3 (slow.outgoing s.conn, []))
      items
      []
transfer_example =
    transfer slow slow heap (2 ^ 16) buffers items slow-Sends slow-Receives heap-Grants
      items-AreItems buffers-AllCarry (omega arith) (λ bytes. (bytes, [])) (λ bytes. refl) ([], [])
      refl

receive_stuck_example :
    (c' : slow.Conn) × (receive slow heap 1000000 (1 ∷ 2 ∷ [], []) ≡ done (stuck c'))
receive_stuck_example =
    receive_stuck slow heap 1000000 slow-Receives slow-Ends (1 ∷ 2 ∷ [], []) (omega arith)
      (omega arith)

large-IsHead : IsHead (head 0 2000)
large-IsHead = record {
  fits = record {
    magic_fits = omega arith;
    type_fits = omega arith;
    ctrl_fits = omega arith;
    source_ip_fits = omega arith;
    destination_ip_fits = omega arith;
    source_port_fits = omega arith;
    destination_port_fits = omega arith;
    id_fits = omega arith;
    size_fits = omega arith;
  };
  is_flow = refl;
}

receive_overruns_example :
    receive slow heap (2 ^ 16) (frame (head 0 2000) (replicate 2000 0) ++ [], [])
    ≡ fault out_of_bounds
receive_overruns_example =
    receive_overruns slow heap (2 ^ 16) slow-Receives (head 0 2000) (replicate 2000 0) []
      large-IsHead refl (omega (arith, length-replicate {A = ℕ} 2000 0)) (omega arith)
      (frame (head 0 2000) (replicate 2000 0) ++ [], []) refl
