-- ===== src/DataReuse.antt =====
-- PIMProfSolver/DataReuse.h: data-reuse segments, the trie that counts them, and the counters of
-- the switches between basic blocks. An element of a segment is a number: a `BBLID`, or the address
-- of the statistics of a basic block.
pub mod Segment
pub mod Trie
pub mod Switch
mod Tests
