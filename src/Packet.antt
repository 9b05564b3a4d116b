-- ===== src/Packet.antt =====
-- src/packet: buffers, the wire headers and the two kinds of packets.
pub mod Buffer
pub mod Header
pub mod FlowHeader
pub mod Layout
pub mod FlowPacket
pub mod HeartBeat
