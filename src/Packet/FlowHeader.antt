-- ===== src/Packet/FlowHeader.antt =====
-- src/packet/FlowHeader.h and FlowHeader.cpp: the header of a flow packet and its accessors.
use multipath_proxy.Prelude.{ℕ, ◌^◌, ◌<◌, [], ◌++◌, ◌==◌, if◌then◌else◌}
use multipath_proxy.Text.{Text, codes, decimal}
use multipath_proxy.Net.SockAddr
use multipath_proxy.Net.SockAddr.{SockAddrIn, of_words}
use multipath_proxy.Packet.Header.{Header, new_header, flow_type}

-- FLOW_CTRL
abbrev pub init_ctrl : ℕ
init_ctrl = 0xFEED

abbrev pub regular_ctrl : ℕ
regular_ctrl = 0xF00D

abbrev pub close_ctrl : ℕ
close_ctrl = 0xDEAD

-- struct FlowHeader, packed.
pub record FlowHeader : Type 0 where
  pub header : Header
  pub ctrl : ℕ
  pub source_ip : ℕ
  pub destination_ip : ℕ
  pub source_port : ℕ
  pub destination_port : ℕ
  pub id : ℕ
  pub size : ℕ

-- The protected constructor, and the public one, which says REGULAR.
unfoldable pub with_ctrl : ℕ → SockAddrIn → SockAddrIn → ℕ → FlowHeader
with_ctrl c source destination id = record {
  header = new_header flow_type;
  ctrl = c;
  source_ip = source.sin_addr;
  destination_ip = destination.sin_addr;
  source_port = source.sin_port;
  destination_port = destination.sin_port;
  id = id;
  size = 0;
}

unfoldable pub new : SockAddrIn → SockAddrIn → ℕ → FlowHeader
unfolding with_ctrl
new source destination id = with_ctrl regular_ctrl source destination id

-- source() and destination(), as getters and setters.
unfoldable pub source : FlowHeader → SockAddrIn
source h = of_words h.source_ip h.source_port

unfoldable pub set_source : FlowHeader → SockAddrIn → FlowHeader
set_source h a = record h { source_ip = a.sin_addr; source_port = a.sin_port }

unfoldable pub destination : FlowHeader → SockAddrIn
destination h = of_words h.destination_ip h.destination_port

unfoldable pub set_destination : FlowHeader → SockAddrIn → FlowHeader
set_destination h a = record h { destination_ip = a.sin_addr; destination_port = a.sin_port }

-- The other setters. Each getter is the field.
abbrev pub set_ctrl : FlowHeader → ℕ → FlowHeader
set_ctrl h c = record h { ctrl = c }

abbrev pub set_source_ip : FlowHeader → ℕ → FlowHeader
set_source_ip h a = record h { source_ip = a }

abbrev pub set_destination_ip : FlowHeader → ℕ → FlowHeader
set_destination_ip h a = record h { destination_ip = a }

abbrev pub set_source_port : FlowHeader → ℕ → FlowHeader
set_source_port h p = record h { source_port = p }

abbrev pub set_destination_port : FlowHeader → ℕ → FlowHeader
set_destination_port h p = record h { destination_port = p }

-- size(uint16_t) and id(uint64_t)
abbrev pub set_size : FlowHeader → ℕ → FlowHeader
set_size h n = record h { size = n }

abbrev pub set_id : FlowHeader → ℕ → FlowHeader
set_id h n = record h { id = n }

ctrl_name : ℕ → Text
ctrl_name c =
    if c == init_ctrl
    then codes "INIT"
    else if c == regular_ctrl
    then codes "REGULAR"
    else if c == close_ctrl
    then codes "CLOSE"
    else []

unfoldable pub to_string : FlowHeader → Text
unfolding ctrl_name source destination
to_string h =
    codes "FlowHeader[ctrl="
    ++ (ctrl_name h.ctrl
        ++ (codes ", source="
            ++ (SockAddr.to_string (source h)
                ++ (codes ", destination="
                    ++ (SockAddr.to_string (destination h)
                        ++ (codes ", id="
                            ++ (decimal h.id
                                ++ (codes ", Size=" ++ (decimal h.size ++ codes "]")))))))))

-- The fields fit the widths that the struct gives them.
pub record Fits (h : FlowHeader) : Type 0 where
  pub magic_fits : h.header.magic < 2 ^ 16
  pub type_fits : h.header.type < 2 ^ 16
  pub ctrl_fits : h.ctrl < 2 ^ 16
  pub source_ip_fits : h.source_ip < 2 ^ 32
  pub destination_ip_fits : h.destination_ip < 2 ^ 32
  pub source_port_fits : h.source_port < 2 ^ 16
  pub destination_port_fits : h.destination_port < 2 ^ 16
  pub id_fits : h.id < 2 ^ 64
  pub size_fits : h.size < 2 ^ 16
