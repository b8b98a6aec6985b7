-- ===== src/Fetch.antt =====
-- Package fetch: containers from the network, ascending and hash-verified, for the executor.
pub mod Queue
pub mod Forward
