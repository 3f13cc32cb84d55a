-- ===== src/Distributed.antt =====
-- include/ni/cds/distributed.
pub mod Backend
pub mod Dynamic
