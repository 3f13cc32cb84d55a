-- ===== src/Tests.antt =====
-- The theorems at concrete inputs, and runs of the definitions.
mod TaggedPtr
mod Spsc
mod Hash
mod Scope
mod Sync
mod Logging
mod LinkedList
mod BufferList
mod MsQueue
mod Pushers
mod Poppers
mod Bus
mod Distributed
