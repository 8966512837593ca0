-- ===== src/Util.antt =====
-- PIMProfSolver/Util.h: what the tools share.
pub mod DisjointSet
