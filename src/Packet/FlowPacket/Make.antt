-- ===== src/Packet/FlowPacket/Make.antt =====
-- What FlowPacket::make builds, for every payload size that fits a uint16_t.
use multipath_proxy.Prelude.{
  ℕ, ◌+◌, ◌^◌, ◌≤◌, ◌<◌, ◌≡◌, inl, inr, List, ◌++◌, arith, ltb, if◌then◌else◌, length, drop,
  length-append, length-drop, drop-append, Bool-cases,
}
use multipath_proxy.Outcome.{done, fault, out_of_bounds, assertion}
use multipath_proxy.Memory.{store_succeeds, store_fails}
use multipath_proxy.Packet.Buffer
use multipath_proxy.Packet.Buffer.{Allocator, Buffer, IsValid, make_packet, u16}
use multipath_proxy.Packet.FlowHeader.{FlowHeader, Fits, set_size}
use multipath_proxy.Packet.Layout.{
  flow_header_size, flow_header_bytes, length-flow_header_bytes, read_flow_header-flow_header_bytes,
}
use multipath_proxy.Packet.FlowPacket.{FlowPacket, header, payload, write_at, make}

-- The largest payload for which header and payload together fit the 16-bit size.
abbrev pub max_payload : ℕ
max_payload = 65507

-- A packet that holds the header `h` with size `n`, and `n` bytes of payload.
pub record Holds (h : FlowHeader) (n : ℕ) (p : FlowPacket) : Type 0 where
  pub valid : IsValid p
  pub sized : p.size ≡ flow_header_size + n
  pub head : header p ≡ set_size h n
  pub body : length (payload p) ≡ n

Fits-set_size : {h : FlowHeader} (n : ℕ) → Fits h → n < 2 ^ 16 → Fits (set_size h n)
Fits-set_size n f lt = ground arith

module _ (heap : Allocator) (h : FlowHeader) (n : ℕ) where
  abbrev pub bytes : List ℕ
  bytes = flow_header_bytes (set_size h n)

  abbrev pub memory : List ℕ
  memory = heap.malloc (u16 (flow_header_size + n))

  pub length-bytes : length bytes ≡ 28
  length-bytes = length-flow_header_bytes (set_size h n)

  pub length-memory : length memory ≡ u16 (flow_header_size + n)
  length-memory = heap.length-malloc _

  abbrev pub built : FlowPacket
  built = record {
    size = u16 (flow_header_size + n);
    data_ = bytes ++ drop (0 + length bytes) memory;
  }

  pub make-built : n ≤ max_payload → make heap h n ≡ done built
  unfolding make make_packet Buffer.make write_at
  make-built le =
      ground (arith, store_succeeds 0 bytes memory (omega (arith, length-bytes, length-memory)))

  Holds-built : Fits h → n ≤ max_payload → Holds h n built
  unfolding header payload
  Holds-built f le = record {
    valid = record {
      sized =
          rw length-append
            (omega (arith, length-bytes, length-memory, length-drop (0 + length bytes) memory));
      small = omega arith;
    };
    sized = omega arith;
    head = read_flow_header-flow_header_bytes (set_size h n) _ (Fits-set_size n f (omega arith));
    body =
        rw (drop-append 28 bytes (drop (0 + length bytes) memory) length-bytes, length-drop)
          (omega (arith, length-bytes, length-memory));
  }

  -- FlowPacket::make for a payload of at most 65507 bytes gives a valid packet with the header,
  -- its size set to that of the payload, and room for the payload, if the fields of the header fit
  -- their widths.
  make-Holds : Fits h → n ≤ max_payload → (p : FlowPacket) × (make heap h n ≡ done p) × Holds h n p
  make-Holds f le = (built, make-built le, Holds-built f le)

  -- FlowPacket::make for a payload of more than 65507 bytes wraps the 16-bit size of the buffer:
  -- for less than 65512 bytes the assertion on the size fails, and for more the header is copied
  -- past the end of the buffer.
  pub make_wraps :
      max_payload < n
      → n < 2 ^ 16
      → make heap h n ≡ (if ltb n 65512 then fault assertion else fault out_of_bounds)
  unfolding make make_packet Buffer.make write_at
  make_wraps lo hi = elim (Bool-cases (ltb n 65512)) [
    | inl few ↦ ground arith
    | inr more ↦ ground (arith, store_fails 0 bytes memory, length-bytes, length-memory)
  ]
