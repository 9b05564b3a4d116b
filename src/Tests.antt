-- ===== src/Tests.antt =====
-- Runs of the model, and the theorems at concrete inputs.
mod Heap
mod Packets
mod Wire
mod Queue
mod Flows
mod Bonds
mod Addresses
mod LockFree
mod Connections
mod Setup
mod Paths
mod Hosts
mod Contexts
