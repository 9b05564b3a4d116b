-- ===== src/Packet/Header.antt =====
-- src/packet/Header.h and Header.cpp, HeartBeatHeader.cpp: what every packet starts with.
-- The enums have the underlying type uint16_t, so a field read from the wire is any such number.
use multipath_proxy.Prelude.{ℕ, ◌==◌, if◌then◌else◌, []}
use multipath_proxy.Text.{Text, codes}

-- MAGIC
abbrev pub magic_number : ℕ
magic_number = 0xAAAA

-- TYPE::FLOW and TYPE::HEARTBEAT
abbrev pub flow_type : ℕ
flow_type = 0xDA7A

abbrev pub heartbeat_type : ℕ
heartbeat_type = 0xBEA7

pub record Header : Type 0 where
  pub magic : ℕ
  pub type : ℕ

-- sizeof(Header)
abbrev pub header_size : ℕ
header_size = 4

-- Header(TYPE)
abbrev pub new_header : ℕ → Header
new_header t = record { magic = magic_number; type = t }

unfoldable pub to_string : Header → Text
to_string h =
    if h.type == flow_type
    then codes "H[type=FLOW]"
    else if h.type == heartbeat_type
    then codes "H[type=HEARTBEAT]"
    else []
