-- ===== src/Packet/HeartBeat.antt =====
-- src/packet/HeartBeatPacket.cpp: a packet that is a Header and nothing more.
use multipath_proxy.Prelude.{ℕ, ◌++◌}
use multipath_proxy.Outcome.{Outcome, ◌>>=◌}
use multipath_proxy.Text.{Text, codes, decimal}
use multipath_proxy.Packet.Buffer.{Allocator, Buffer, make_packet}
use multipath_proxy.Packet.Header.{Header, new_header, heartbeat_type, header_size}
use multipath_proxy.Packet.Layout.{header_bytes}
use multipath_proxy.Packet.FlowPacket.{write_at}

-- HeartBeatHeader()
abbrev pub heart_beat_header : Header
heart_beat_header = new_header heartbeat_type

-- HeartBeatPacket()
unfoldable pub make : Allocator → Outcome Buffer
make heap = do b ← make_packet heap header_size; write_at 0 (header_bytes heart_beat_header) b

-- size() does not look at the buffer.
abbrev pub size : Buffer → ℕ
size p = header_size

unfoldable pub to_string : Buffer → Text
to_string p =
    codes "HeartBeatPacket[header="
    ++ (codes "HeartBeatHeader[]" ++ (codes ",Size=" ++ (decimal (size p) ++ codes "]")))
