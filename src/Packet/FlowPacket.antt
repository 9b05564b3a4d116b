-- ===== src/Packet/FlowPacket.antt =====
-- src/packet/FlowPacket.cpp: a buffer that holds a FlowHeader and behind it the payload.
pub mod Make
pub mod Resize
pub mod Filled
use multipath_proxy.Prelude.{
  ℕ, ◌+◌, ◌-◌, ◌^◌, ◌≤◌, ◌<◌, ◌≡◌, refl, List, [], ◌∷◌, ◌++◌, Option, none, some, arith, length,
  take, drop,
}
use multipath_proxy.Outcome.{Outcome, done, throws, fault, out_of_bounds, ◌>>=◌, ◌>>◌, or_fault}
use multipath_proxy.Memory.{le_bytes, store}
use multipath_proxy.Text.{Text, codes, decimal}
use multipath_proxy.Packet.Buffer
use multipath_proxy.Packet.Buffer.{Allocator, Buffer, make_packet}
use multipath_proxy.Packet.FlowHeader
use multipath_proxy.Packet.FlowHeader.{FlowHeader, set_size}
use multipath_proxy.Packet.Layout.{flow_header_size, flow_header_bytes, read_flow_header}

abbrev pub FlowPacket : Type 0
FlowPacket = Buffer

-- header(), a view of the first bytes of the buffer.
unfoldable pub header : FlowPacket → FlowHeader
header p = read_flow_header p.data_

-- data(), the bytes behind the header.
unfoldable pub payload : FlowPacket → List ℕ
payload p = drop flow_header_size p.data_

-- header()->size() and header()->id(), as the queues read them.
abbrev pub size : FlowPacket → ℕ
size p = (header p).size

abbrev pub id : FlowPacket → ℕ
id p = (header p).id

-- A memcpy into the buffer.
unfoldable pub write_at : ℕ → List ℕ → FlowPacket → Outcome FlowPacket
write_at i bytes p = do
  filled ← or_fault (store i bytes p.data_) out_of_bounds
  done (record p { data_ = filled })

-- header()->size(n) and header()->id(n), through the view.
unfoldable pub store_size : ℕ → FlowPacket → Outcome FlowPacket
unfolding write_at
store_size n p = write_at 26 (le_bytes 2 n) p

unfoldable pub store_id : ℕ → FlowPacket → Outcome FlowPacket
unfolding write_at
store_id n p = write_at 18 (le_bytes 8 n) p

module _ (heap : Allocator) where
  -- FlowPacket(FlowHeader, uint16_t) and make
  unfoldable pub make : FlowHeader → ℕ → Outcome FlowPacket
  unfolding write_at
  make h n = do
    b ← make_packet heap (flow_header_size + n)
    write_at 0 (flow_header_bytes (set_size h n)) b

  -- Resize. The handler around it throws the same exception again.
  unfoldable pub resize : FlowPacket → ℕ → Outcome FlowPacket
  resize p n = do b ← Buffer.resize heap p (flow_header_size + n); store_size n b

unfoldable pub to_string : FlowPacket → Text
unfolding header
to_string p =
    codes "FlowPacket[header="
    ++ (FlowHeader.to_string (header p) ++ (codes ",size=" ++ (decimal p.size ++ codes "]")))
