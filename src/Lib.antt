-- ===== src/Lib.antt =====
-- ztreamer: an index of compact blocks and its synchronisation.
--
-- Fetch workers get raw blocks from a node, parse them and send them, in any order of heights, to
-- one coordinator. A shared budget bounds what is sent and not yet written. The coordinator gives the
-- blocks to an ordered builder, which makes batches of linked records; the index writer stores each
-- record, and packs each complete run of 1,000 records into a range.
--
-- Prelude: results, lists over native numbers, machine words, UTF-8, and a BTreeMap as an association list.
-- Chain: the crate crates/chain.
--   Chain/TreeSizes, Chain/Types: the records of crates/chain/src/codec/mod.rs and types.rs.
--   Chain/Cursor, Chain/Endian, Chain/Codec: Reader and the big-endian integers. A reader is its bytes
--     and its offset; a read returns its value and the reader after it, or the error.
--   Chain/Prints: what a writer wrote, read back by a reader, for each piece of a layout.
--   Chain/Message: crates/chain/src/protobuf.rs, with a record for each message.
--   Chain/Record: encode, decode and protobuf_envelope.
--   Chain/Parser: crates/chain/src/parser.rs, one function per method; a loop over a count is structural in the count.
--   Chain/Views: the encoded and the message view of a stored block.
--   Chain/Stored: the way of a block from its raw bytes to its stored record and back.
--   Chain/Range: write_range and RangeDecoder. Chain/Range/Spec gives the layout directly. Chain/Range/Rows is
--     about ranges packed from stored rows.
-- Index/Encoding: WriteBatch::encode of crates/index/src/index/batch.rs.
-- Index/Tables, Index/Metadata, Index/RangeMeta, Index/Error: tables.rs, checked_range.rs, metadata.rs, range_meta.rs and error.rs of
--   crates/index/src/index. heed is a parameter, a record of databases with what a write and a delete do to a later
--   read as laws (Index/Tables/Laws). A transaction is its tables, and an aborted one leaves the old tables.
-- Index/Writer, Index/Writes: writer.rs, and the writes of mod.rs. An operation returns the writer as it then is.
--   Index/Writer/Stored says which chain the tables hold: each block below the sealed height in its packed range, each
--   other one in its row, or still in the batch.
--   Index/Writes/Guards is about the two guards of append, and Index/Writes/Hashes about the hash index after it.
-- Index/Snapshot: the reads of snapshot.rs. The caller of read_blocks is a function on a state, which may stop the read.
-- Snapshot/Entry: ManifestEntry of crates/snapshot/src/manifest_entry/mod.rs and the pools of crates/snapshot/src/pool.rs.
-- Snapshot/Epoch: crates/snapshot/src/epoch.rs. Epochs::next gives the iterator after it.
-- Tests: concrete inputs.
-- Sync/Flow: crates/sync/src/pipeline/flow_control.rs. A wait is `none`; the lock makes each operation one
--   step, and Sync/Flow/Budget takes the steps of all threads in any order. The blocks held at once are assumed to
--   be no more than there are u32 heights: the workers send each height once, and the blocks are in memory.
-- Sync/Head: poll_canonical_head of crates/sync/src/head/mod.rs. The node is a parameter with a state, which
--   each request may change. The fuel of the loop over blocks is the number of u32 heights, which each turn
--   raises by one; that of the bisection is the number of known blocks, which each turn halves.
-- Index/State, Index/Builder: crates/index/src/index/state.rs and crates/index/src/ingest.rs. Each method
--   returns its result beside the builder as it then stands, so that an error keeps what was changed.
--
-- Integers are natural numbers; where the code checks or wraps, the model does at the same width, and a
-- usize has 64 bits. The plain sums of the read-ahead budget wrap at 2^64, as in a release build. Byte
-- strings are lists of numbers.
-- Loops: those over lists are structural. The loop of push runs on the number of pending blocks,
-- that of build_batch too, that of drain_records on one more, the iteration over epochs on the number of
-- entries, that of seal_ranges on the number of ranges of u32 heights, and that of read_blocks on the number of
-- heights asked for, with 1,000 inside a range, which has no more heights; each is shown to be enough.
--
-- Not modelled: prost, a parameter whose round trip on the messages at hand is a hypothesis; zakura's
-- types beyond a hash as its bytes, and the test of 32 bytes for a field element, a parameter; blake3, a
-- parameter; the timers and metrics of a write; the text of errors; threads, sockets and files. The crates daemon,
-- service, remote, import, replicator, jsonrpc, p2p and embedded are not modelled.
pub mod Prelude
pub mod Chain
pub mod Sync
pub mod Index
pub mod Snapshot
pub mod Tests
