-- ===== src/Sat.antt =====
-- The SAT solver of fabko/compiler/backend/sat.
pub mod Literal
pub mod Types
pub mod Clauses
pub mod Propagate
pub mod Backtrack
pub mod Resolve
pub mod Decide
pub mod Vsids
pub mod Watcher
pub mod Solve
pub mod Build
pub mod Invariant
pub mod Correct
pub mod Decides
pub mod Cnf
