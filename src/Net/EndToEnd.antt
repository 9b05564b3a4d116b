-- ===== src/Net/EndToEnd.antt =====
-- From an endpoint of one host to the endpoint of the other: the flow of src/net/Flow.cpp on both
-- hosts, and between them the bond (src/net/Bond.cpp) with its two paths.
pub mod OnPath
pub mod Order
pub mod Bytes
