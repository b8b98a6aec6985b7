-- ===== src/Store.antt =====
-- Package store: the storage engine of one chain.
pub mod Keys
pub mod Rows
pub mod Flat
pub mod Manifest
pub mod Merge
pub mod Container
pub mod Window
pub mod Memtable
pub mod Run
pub mod Reads
pub mod KWay
pub mod Ef
pub mod Postings
pub mod Receipts
pub mod Footer
pub mod Cut
