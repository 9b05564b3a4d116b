-- ===== src/Tests/Paths.antt =====
-- The theorem on a flow over both paths at a concrete input: the packet 1 goes over the one path, the
-- packet 0 over the other, and 1 arrives first.
use mathlib.Core.List.Perm
use multipath_proxy.Prelude.{ℕ, ◌^◌, ◌<◌, ◌≡◌, refl, List, [], ◌∷◌, ◌++◌, map, arith, replicate}
use multipath_proxy.Outcome.{done}
use multipath_proxy.Packet.FlowPacket.{FlowPacket}
use multipath_proxy.Packet.FlowHeader.{Fits}
use multipath_proxy.Collections.BlockingQueue.{BlockingQueue, empty_queue}
use multipath_proxy.Collections.BlockingQueue.Delivery.{inserts, pops, run}
use multipath_proxy.Net.Receive.Stream.{Item, flow, AreItems, content}
use multipath_proxy.Net.Send.Transfer.{AllCarry, transfer}
use multipath_proxy.Net.TwoPaths.{Content, Carried, two_paths}
use multipath_proxy.Tests.Heap.{heap, heap-Grants, slow, slow-Receives, slow-Sends}
use multipath_proxy.Tests.Packets.{head, packet_of, packet_long}

abbrev body : List ℕ
body = 7 ∷ 8 ∷ 9 ∷ []

small-Fits : (i : ℕ) → i < 2 → Fits (head i 3)
small-Fits i lt = record {
  magic_fits = omega arith;
  type_fits = omega arith;
  ctrl_fits = omega arith;
  source_ip_fits = omega arith;
  destination_ip_fits = omega arith;
  source_port_fits = omega arith;
  destination_port_fits = omega arith;
  id_fits = omega arith;
  size_fits = omega arith;
}

-- What one path carries.
abbrev items : ℕ → List Item
items i = flow (head i 3) body ∷ []

items-AreItems : (i : ℕ) → i < 2 → AreItems (items i)
items-AreItems i lt = (
  record {
    is_head = record { fits = small-Fits i lt; is_flow = refl };
    announced = refl;
    small = omega arith;
  },
  tt,
)

buffers-AllCarry : (i : ℕ) → AllCarry (packet_of i body ∷ []) (items i)
buffers-AllCarry i = (
  record { valid = record { sized = packet_long i body; small = omega arith }; bytes = refl },
  tt,
)

abbrev OnPath : ℕ → List FlowPacket → Type 0
OnPath i r =
    Carried slow slow heap (2 ^ 16) slow-Sends slow-Receives heap-Grants (omega arith)
      (λ bytes. (bytes, [])) (λ bytes. refl) (packet_of i body ∷ []) (items i) r

carry : (i : ℕ) → i < 2 → (r : List FlowPacket) × OnPath i r
carry i lt =
    let (s, streamed) =
      transfer slow slow heap (2 ^ 16) (packet_of i body ∷ []) (items i) slow-Sends slow-Receives
        heap-Grants (items-AreItems i lt) (buffers-AllCarry i) (omega arith) (λ bytes. (bytes, []))
        (λ bytes. refl) ([], []) refl in
    (
      streamed.packets,
      record {
        start = ([], []);
        end = s.conn;
        last = streamed.conn;
        empty = refl;
        sent = s.ends;
        read = streamed.ends;
      },
    )

abbrev first : (r : List FlowPacket) × OnPath 1 r
first = carry 1 (omega arith)

abbrev second : (r : List FlowPacket) × OnPath 0 r
second = carry 0 (omega arith)

abbrev contents : List Content
contents = (head 0 3, body) ∷ (head 1 3, body) ∷ []

two_paths_example :
    (out : List FlowPacket) × (last : BlockingQueue) × (run empty_queue
        (map inserts (first.0 ++ second.0) ++ replicate 2 pops)
      ≡ done (out, last))
    × (map content out ≡ contents)
two_paths_example =
    two_paths slow slow heap (2 ^ 16) slow-Sends slow-Receives heap-Grants (omega arith)
      (λ bytes. (bytes, [])) (λ bytes. refl) (packet_of 1 body ∷ []) (packet_of 0 body ∷ [])
      (items 1) (items 0) first.0 second.0 (first.0 ++ second.0) contents
      (items-AreItems 1 (omega arith)) (items-AreItems 0 (omega arith)) (buffers-AllCarry 1)
      (buffers-AllCarry 0) first.1 second.1 (refl, (refl, tt))
      (Perm.swap (head 0 3, body) (head 1 3, body) []) (Perm.refl (first.0 ++ second.0))
      (omega arith)
