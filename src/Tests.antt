-- ===== src/Tests.antt =====
-- Concrete inputs at which the theorems' hypotheses hold, and runs of the definitions.
mod Keys
mod Flat
mod Merge
mod Memtable
mod Read
mod Cut
mod Fetch
mod Reads
mod SaeRing
mod KWay
mod Ef
mod Postings
mod Receipts
mod Footer
