-- ===== src/Net/Bond/HeartBeats.antt =====
-- WriteHeartBeatPacket: what it puts on the satellite connection.
use mathlib.Core.List.{append-nil}
use multipath_proxy.Prelude.{
  ℕ, ◌+◌, ◌<◌, ◌≡◌, refl, ap, ◌∙◌, true, List, [], ◌++◌, some, arith, length, drop, drop_all,
}
use multipath_proxy.Outcome.{Outcome, done}
use multipath_proxy.Memory.{store, store_succeeds}
use multipath_proxy.Packet.Buffer
use multipath_proxy.Packet.Buffer.{Allocator, Buffer, IsValid, make_packet}
use multipath_proxy.Packet.HeartBeat
use multipath_proxy.Packet.HeartBeat.{heart_beat_header}
use multipath_proxy.Packet.FlowPacket.{write_at}
use multipath_proxy.Packet.Layout.{header_bytes, length-header_bytes}
use multipath_proxy.Net.Transport.{Transport, Sends}
use multipath_proxy.Net.Send.{SendEnd}
use multipath_proxy.Net.Send.Loop.{Sent, send_to_connection-Sent}
use multipath_proxy.Net.Bond.{QueueLevel, is_quiet, write_heart_beat}

abbrev beat_bytes : List ℕ
beat_bytes = header_bytes heart_beat_header

abbrev beat_packet : Buffer
beat_packet = record { size = 4; data_ = beat_bytes }

-- HeartBeatPacket::make gives a buffer that holds the header and nothing else.
make_beat : (heap : Allocator) → HeartBeat.make heap ≡ done beat_packet
unfolding HeartBeat.make make_packet Buffer.make write_at
make_beat heap =
    let memory : List ℕ = heap.malloc 4 in
    let none_left : drop (0 + length beat_bytes) memory ≡ [] =
      drop_all (0 + length beat_bytes) memory
        (omega (arith, heap.length-malloc 4, length-header_bytes heart_beat_header)) in
    let stored : store 0 beat_bytes memory ≡ some beat_bytes =
      store_succeeds 0 beat_bytes memory
        (omega (arith, heap.length-malloc 4, length-header_bytes heart_beat_header))
      ∙ ap (λ bs. some (beat_bytes ++ bs)) none_left
      ∙ ap some (append-nil beat_bytes) in
    rw stored refl

beat-IsValid : IsValid beat_packet
beat-IsValid = record { sized = length-header_bytes heart_beat_header; small = omega arith }

module _ (t : Transport) where
  Sent-by_eq :
      {r r' : Outcome (SendEnd t)} {bytes before : List ℕ}
      → r' ≡ r
      → Sent t r bytes before
      → Sent t r' bytes before
  Sent-by_eq e s = record { conn = s.conn; ends = e ∙ s.ends; appended = s.appended }

  -- Where the test on the queues of the satellite connection passes and its lock is free,
  -- WriteHeartBeatPacket puts the four bytes of a heartbeat on the connection, if send takes over
  -- at least one byte, with fuel above 4.
  pub write_heart_beat-Sent :
      (heap : Allocator) (fuel : ℕ) (out in_ : QueueLevel) (c : t.Conn)
      → Sends t
      → 4 < fuel
      → is_quiet t out in_ ≡ done true
      → Sent t
          (write_heart_beat t heap fuel out in_ true c)
          (header_bytes heart_beat_header)
          (t.outgoing c)
  unfolding write_heart_beat
  write_heart_beat-Sent heap fuel out in_ c up enough quiet =
      Sent-by_eq (rw (quiet, make_beat heap) refl)
        (send_to_connection-Sent t up fuel c beat_packet beat-IsValid enough)
