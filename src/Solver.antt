-- ===== src/Solver.antt =====
-- PIMProfSolver/CostSolver.cpp and CostSolver.h: the cost model and the search for a decision.
pub mod RunStats
pub mod Cost
pub mod ReuseCost
pub mod Align
pub mod Search
pub mod Reuse
pub mod Policies
pub mod Input
pub mod Revise
pub mod Groups
pub mod Report
pub mod Driver
mod Tests
