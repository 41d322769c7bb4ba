-- ===== src/Examples.antt =====
-- Concrete inputs: a container for the parameters, tests by evaluation, and the theorems applied.
pub mod Store
pub mod Solver
pub mod Witness
pub mod Parts
pub mod Database
pub mod Cnf
pub mod Decides
pub mod Uip
pub mod Fabl
pub mod FablIr
