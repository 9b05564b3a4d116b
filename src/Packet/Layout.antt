-- ===== src/Packet/Layout.antt =====
-- How the packed structs of src/packet lie in memory: their fields one behind the other.
use multipath_proxy.Prelude.{ℕ, ◌^◌, ◌<◌, ◌≡◌, refl, List, ◌++◌, arith, length}
use multipath_proxy.Memory.{le_bytes, le_value, load, le_value-le_bytes}
use multipath_proxy.Packet.Header.{Header}
use multipath_proxy.Packet.FlowHeader.{FlowHeader, Fits}

-- sizeof(FlowHeader)
abbrev pub flow_header_size : ℕ
flow_header_size = 28

unfoldable pub header_bytes : Header → List ℕ
header_bytes h = le_bytes 2 h.magic ++ le_bytes 2 h.type

unfoldable pub read_header : List ℕ → Header
read_header mem = record { magic = le_value (load 0 2 mem); type = le_value (load 2 2 mem) }

-- The fields of a FlowHeader behind its Header.
unfoldable pub flow_fields_bytes : FlowHeader → List ℕ
flow_fields_bytes h =
    le_bytes 2 h.ctrl
    ++ (le_bytes 4 h.source_ip
        ++ (le_bytes 4 h.destination_ip
            ++ (le_bytes 2 h.source_port
                ++ (le_bytes 2 h.destination_port ++ (le_bytes 8 h.id ++ le_bytes 2 h.size)))))

unfoldable pub flow_header_bytes : FlowHeader → List ℕ
flow_header_bytes h = header_bytes h.header ++ flow_fields_bytes h

unfoldable pub read_flow_header : List ℕ → FlowHeader
unfolding read_header
read_flow_header mem = record {
  header = read_header mem;
  ctrl = le_value (load 4 2 mem);
  source_ip = le_value (load 6 4 mem);
  destination_ip = le_value (load 10 4 mem);
  source_port = le_value (load 14 2 mem);
  destination_port = le_value (load 16 2 mem);
  id = le_value (load 18 8 mem);
  size = le_value (load 26 2 mem);
}

pub length-flow_header_bytes : (h : FlowHeader) → length (flow_header_bytes h) ≡ flow_header_size
unfolding flow_header_bytes flow_fields_bytes header_bytes
length-flow_header_bytes h = refl

-- Each field of a header is read back from the bytes that a copy of the struct leaves, whatever
-- follows them, if the fields fit their widths.
pub read_flow_header-flow_header_bytes :
    (h : FlowHeader) (rest : List ℕ) → Fits h → read_flow_header (flow_header_bytes h ++ rest) ≡ h
unfolding read_flow_header flow_header_bytes flow_fields_bytes header_bytes
read_flow_header-flow_header_bytes h rest f = λ i. record {
  header = record {
    magic = le_value-le_bytes 2 h.header.magic (omega arith) i;
    type = le_value-le_bytes 2 h.header.type (omega arith) i;
  };
  ctrl = le_value-le_bytes 2 h.ctrl (omega arith) i;
  source_ip = le_value-le_bytes 4 h.source_ip (omega arith) i;
  destination_ip = le_value-le_bytes 4 h.destination_ip (omega arith) i;
  source_port = le_value-le_bytes 2 h.source_port (omega arith) i;
  destination_port = le_value-le_bytes 2 h.destination_port (omega arith) i;
  id = le_value-le_bytes 8 h.id (omega arith) i;
  size = le_value-le_bytes 2 h.size (omega arith) i;
}

pub length-header_bytes : (h : Header) → length (header_bytes h) ≡ 4
unfolding header_bytes
length-header_bytes h = refl

pub length-flow_fields_bytes : (h : FlowHeader) → length (flow_fields_bytes h) ≡ 24
unfolding flow_fields_bytes
length-flow_fields_bytes h = refl

-- The type can be read as soon as the first four bytes are there.
pub read_header-header_bytes :
    (h : Header) (rest : List ℕ)
    → h.magic < 2 ^ 16
    → h.type < 2 ^ 16
    → read_header (header_bytes h ++ rest) ≡ h
unfolding read_header header_bytes
read_header-header_bytes h rest m t = λ i. record {
  magic = le_value-le_bytes 2 h.magic (omega arith) i;
  type = le_value-le_bytes 2 h.type (omega arith) i;
}
