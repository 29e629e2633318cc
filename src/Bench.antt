-- ===== src/Bench.antt =====
-- The programs of bench/.
pub mod KvCache
pub mod Timing
