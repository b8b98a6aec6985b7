-- ===== src/Lib.antt =====
-- The storage engine of epochdb (package store), the ascending fetch in front of its executor (package
-- fetch) and the executor's root ring (package exec). The store keeps the history of one chain in sorted,
-- immutable runs behind a window of recent blocks, merges runs into terminal ones and publishes these.
--
-- A block comes in as a BlockWrite (Store/Rows, store/mem.go). The memtable (Store/Memtable,
-- store/mem.go) appends its rows to the window log and indexes them in RAM; the flat cache
-- (Store/Flat, store/flat.go) takes its state rows. A full window is sealed into an L0 run, whose
-- reference the manifest (Store/Manifest, store/db.go) appends; when the L0 runs behind the last
-- terminal hold enough transactions, the merge (Store/Merge, store/merge.go) makes one terminal of
-- them while seals go on, and the leading terminals are what is published (publishable of
-- store/join.go, also in Store/Merge).
--
-- Which file models what:
--   Store/Keys         the key schema of store/format.go: prefixes, key builders, suffix, split
--   Store/Rows         StateRow, TxWrite, LogWrite, BlockWrite, stateKeyPrefix of store/mem.go
--   Store/Rows/Entries the posting groups and set rows of a transaction: logPostings, logSets, role
--   Store/Container    pvmTemplate and Reassemble of store/container.go
--   Store/Window       chainIndex of store/mem.go: add, find, padTo
--   Store/Memtable     the memtable's state and its small writers: write, putState, chainRow, ...
--   Store/Memtable/Write  add: one block into the window, row by row
--   Store/Memtable/Replay recover of store/mem.go: the loop over the log, the closures that wait for
--                      the end record, the cut of a torn tail (as the writer does it)
--   Store/Memtable/Read chainGet, readRow, latestState, codeBlob, lookupNum of store/mem.go
--   Store/Flat         flatCache of store/flat.go: adopt, get, fill, apply, put
--   Store/Manifest     RunRef, checkTiling, the ends, the run that holds a TxNum
--   Store/Cut          the writer of store/db.go: WriteBlock, MaybeFlush, Flush, cutWindow, seal
--   Store/Run          Get and Latest of store/run.go over tables of rows in order
--   Store/Footer       encode and decodeFooterVersion of store/run.go
--   Store/Reads        the reads of store/db.go over the windows and the runs: chainRow, lookupNum,
--                      latest, BlockTxRange, HeightOfTx
--   Store/KWay         mergeSection of store/merge.go and its cursors
--   Store/Ef           Encode and Decode of store/ef/ef.go, and their bit writer and reader
--   Store/Postings     postSet and the scans of store/postings.go: add, chunks, ScanChunks, ScanGroups,
--                      ScanSet
--   Store/Receipts     the transaction row, the logs and receipt fields of a block and the tail pair of
--                      store/receipts.go
--   Store/Merge        mergeSpanLocked, MaybeMerge, merge and publishable as functions on the
--                      manifest; Store/Merge/Reach is the machine in which they interleave with
--                      seals of any runs and kills, Store/Merge/Node the one in which the writer of
--                      Store/Cut writes, cuts and seals beside them
--   Fetch/Queue        the Queue of fetch/window.go (newQueue, Append, GetByHeight, release) and
--                      joinSpan
--   Fetch/Forward      forward of fetch/window.go: the spans that are out, the joining loop, the window
--                      rule; Fetch/Forward/Reach is the machine in which they interleave with the
--                      workers, the follower and the executor
--   Exec/SaeRing       the slot file of exec/saering.go: put, get, sync
-- The modules below a component are its proofs, named for what they prove. Tests holds concrete
-- runs. Prelude holds byte strings, lists, maps and Boolean tests over the native numbers.
--
-- Conventions: a Go error or panic is `none`. A uint64 keeps its wrap-around (add64, sub64); `len`
-- and lengths that the process could hold are plain numbers. A Go map is an association list without
-- a second entry for a key; where the code ranges over a map, the model takes the entries in the
-- order in which the loop meets them. Locks are left out: each function is one critical section. In
-- Store/Merge a merge is planned, begun and finished in separate steps, as the code takes its lock
-- anew. A merge that fails, or a process that dies, forgets the merge in flight.
--
-- Parameters: the content hashes of a sealed run (`run_name`) and of a merged one (`artifact`) and the
-- RLP encoding of a bare block are functions of which nothing is assumed, but in the theorem on two
-- builders: there the hash of a merged run reads the terminal before it and the ranges and rows of its
-- inputs, not their names. Of keccak256 and sha256 only that a hash has 32 bytes.
--
-- The bloom gate of a run (`may_have`) and crc32 are functions too: the theorems that need it say that
-- the gate turns away no prefix that has rows, and that a checksum has 32 bits and is not zero on an
-- empty slot. An sstable iterator is a walk over rows in byte order, container/heap the choice of a
-- least cursor. What the network answers to a span is an argument of the model.
--
-- Loops are structural recursions: over the runs, the rows or the index of the run below. The
-- replay of the log runs on fuel, one more than the length of the log; a record has thirteen bytes
-- at least, so the fuel does not run out, and the results below are about the value of recover itself.
-- The joining loop of the fetch has a round for each answer and one more, the release loop of the
-- queue one for each height up to the executed one, the bisection of HeightOfTx one for each height
-- between its bounds, the k-way merge one for each row; each is proved enough. A number of a chunk's
-- header has ten bytes at most, the loop to the next one of its upper vector a round for each bit left.
--
-- sort.Slice is an insertion sort; the order of equal entries, which it leaves open, does not show in
-- the chunks, since the payloads of equal entries are joined. A panic of a codec, which is not an
-- error in the source, is an outcome of its own. What `make` can allocate at once (`can_make`) is a
-- parameter; a theorem that needs it says that it is enough for the count at hand.
--
-- Not modelled: the sstables and compression (pebble), the artifact store (package dist), file
-- operations, the peers of package fetch and its consensus follower, the execution of blocks in package
-- exec, and the packages rpc, commit, latest and cmd. In Fetch/Forward a span is joined in one step; in
-- the source the follower may append between two of its blocks.
pub mod Prelude
pub mod Store
pub mod Fetch
pub mod Exec
mod Tests
