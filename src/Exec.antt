-- ===== src/Exec.antt =====
-- Package exec: the execution of blocks.
pub mod SaeRing
