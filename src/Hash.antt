-- ===== src/Hash.antt =====
-- include/ni/hash and src/hash: string hashing and consistent hashing.
pub mod MultiLinear
pub mod Float64
pub mod Jump
