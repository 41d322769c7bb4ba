-- ===== src/Fabl.antt =====
-- The front end of FABL: fabko/compiler/frontend/parser and fabko/compiler/frontend/ir.
pub mod Ir
pub mod Cst
pub mod Copa
pub mod Grammar
