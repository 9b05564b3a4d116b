-- ===== src/Tests/Packets.antt =====
-- Packets to run the model with, and the theorems on packets at concrete inputs.
use multipath_proxy.Prelude.{ℕ, ◌+◌, ◌≡◌, refl, List, [], ◌∷◌, ◌++◌, arith, length}
use multipath_proxy.Outcome.{done, fault, assertion}
use multipath_proxy.Packet.Header.{new_header, flow_type}
use multipath_proxy.Packet.FlowHeader.{FlowHeader, Fits, regular_ctrl}
use multipath_proxy.Packet.Layout.{header_bytes, flow_fields_bytes}
use multipath_proxy.Packet.FlowPacket.{FlowPacket, make, resize}
use multipath_proxy.Packet.FlowPacket.Make.{make_wraps}
use multipath_proxy.Packet.FlowPacket.Resize.{Resized, resize-Resized}
use multipath_proxy.Tests.Heap.{heap}

-- The header of packet `i`, with `n` bytes to follow.
abbrev pub head : ℕ → ℕ → FlowHeader
head i n = record {
  header = new_header flow_type;
  ctrl = regular_ctrl;
  source_ip = 0x0100007F;
  destination_ip = 0x0200007F;
  source_port = 80;
  destination_port = 8080;
  id = i;
  size = n;
}

abbrev pub packet_of : ℕ → List ℕ → FlowPacket
packet_of i body = record {
  size = 28 + length body;
  data_ =
      header_bytes (head i (length body)).header
      ++ (flow_fields_bytes (head i (length body)) ++ body);
}

pub head-Fits : Fits (head 5 3)
head-Fits = record {
  magic_fits = omega arith;
  type_fits = omega arith;
  ctrl_fits = omega arith;
  source_ip_fits = omega arith;
  destination_ip_fits = omega arith;
  source_port_fits = omega arith;
  destination_port_fits = omega arith;
  id_fits = omega arith;
  size_fits = omega arith;
}

make_wraps_example : make heap (head 5 3) 65510 ≡ fault assertion
make_wraps_example = make_wraps heap (head 5 3) 65510 (omega arith) (omega arith)

pub packet_long : (i : ℕ) (body : List ℕ) → length (packet_of i body).data_ ≡ 28 + length body
unfolding header_bytes flow_fields_bytes
packet_long i body = omega arith

resize-Resized_example :
    (q : FlowPacket) × (resize heap (packet_of 5 (7 ∷ 8 ∷ 9 ∷ [])) 2 ≡ done q)
    × Resized (packet_of 5 (7 ∷ 8 ∷ 9 ∷ [])) 2 q
resize-Resized_example =
    resize-Resized heap (packet_of 5 (7 ∷ 8 ∷ 9 ∷ [])) 2 refl
      (omega (arith, packet_long 5 (7 ∷ 8 ∷ 9 ∷ []))) (omega arith)
