-- ===== src/Collections.antt =====
-- src/collections: the packet queues and the map of flows.
pub mod Sorted
pub mod Ascending
pub mod BlockingQueue
pub mod FlowMap
pub mod LockFree
pub mod ConnectionManager
