-- ===== src/Spsc.antt =====
-- include/ni/cds: the containers for a single producer and a single consumer.
pub mod Ring
pub mod Queue
pub mod Threads
pub mod LinkedList
pub mod BufferList
