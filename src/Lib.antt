-- ===== src/Lib.antt =====
-- A verification library for Fabko: its compiler back end, a CDCL SAT solver, and smaller parts around
-- it, as executable definitions with the theorems that make them correct.
--
-- The program. fabko/compiler/backend/sat holds the solver. A `model` lists variables and clauses; the
-- constructor of `solver_context` fills two structures of arrays from it, one row for a variable and
-- one for a clause; `solve_sat` repeats rounds on that context until there is an answer: restart if
-- due, `unit_propagation`, then `resolve_conflict`, `learn_additional_clause`, `backtrack` and
-- `update_vsids_activity` on a conflict, or `make_decision` without one. `solver::solve` calls it.
--
-- The files.
--   Base         names of the libraries passed on, integers, Boolean tests and list lemmas.
--   Soa          the interface of the container fil::soa::soa, which is not in the repository: a
--                parameter, with its laws. Examples/Store is a list that meets them.
--   Sat/Literal, Sat/Types
--                literal, clause, clause_watcher, assignment_context and model of solver.hh, and
--                solver_context.hh. `Env` gathers the parameters: the containers and floating point.
--   Sat/Build    the constructor of solver_context, in solver.cpp.
--   Sat/Cnf      make_model_from_cnf_file, in solver.cpp; Text/Stream is what it takes from the streams
--                of the standard library.
--   Sat/Watcher  clause_watcher, in solver.hh and solver.cpp.
--   Sat/Clauses, Sat/Propagate, Sat/Resolve, Sat/Backtrack, Sat/Decide, Sat/Vsids, Sat/Solve
--                the functions of solver_impl.cpp, and solver::solve of solver.cpp, each as a function
--                from a context to a context. The modules below them hold their proofs.
--   Sat/Invariant what a valid context is.
--   Sat/Correct  the solver against the meaning of a model.
--   Sat/Decides, Sat/Cnf/Decides
--                how the solver ends, on a model and on a file.
--   Text         split_string, join and trim_string of fabko/common/string_utils.hh.
--   Acl          message_type and the JSON forms of acc and message, in fabko/agent/protocol/acl.hh; the
--                JSON library is a parameter with its laws.
--   Datastore    the transactions of fabko/datastore/kv_rocksdb.hh and kv_rocksdb.cpp; RocksDB is a
--                parameter with its laws.
--   SatBuilder   fabko/compiler/frontend/sat_builder: the SAT model of an integer constant.
--   Fabl/Cst, Fabl/Grammar
--                concrete_ast.hh and fabl_grammar.hh of fabko/compiler/frontend/parser; the parser
--                library is Fabl/Copa, a parameter with its laws.
--   Fabl/Ir      fabko/compiler/frontend/ir: the intermediate representation and its JSON forms.
--   Examples     the definitions run on small models, and the theorems applied to them.
--
-- How state is modelled. A `solver_context` is the record `Context`; an operation returns the new
-- one. A row of a structure of arrays is read and written through its id; a `soa_struct` is that id.
-- The back of the vector `trail_` is the head of the list. An exception is a value of `Result`; a
-- build with assertions is modelled, so `fabko_assert` throws. So are two values that stand for
-- undefined behaviour: a division by a decay interval of 0, and `std::abs` of the least int64 read
-- from a file. Counters of type size_t and uint32_t wrap at 2 ^ 64 and 2 ^ 32; levels and the count
-- of one pass are at most the number of variables and of clauses, so they do not wrap and are natural
-- numbers. Activities are integers. Division by a float is a parameter.
--
-- Loops. Each loop over a container is structural recursion on its ids; the loop of `backtrack` and
-- the two loops of `resolve_conflict` are recursion on the trail, which they walk down. The loop of
-- `unit_propagation` has one unit of fuel more than there are variables, which is enough, since a
-- round that is not the last assigns one; the loop of `split_string` has one more than the text has
-- characters and the limitation allows parts, since a round that is not the last takes off a
-- separator and lowers the limitation: enough but for an empty separator without a limitation, where
-- the source does not end. The main loop takes its fuel as an argument, and running out of it is the
-- outcome `running`. It need not end: on a model without variables it does not, nor does it where the
-- restart threshold has wrapped to 0. Otherwise its rank falls with each round that goes on: the
-- clauses over the variables that are not stored yet (Base/Words counts them), then a restart that is
-- due, then the free variables. `round_bound` of Sat/Decides gives, for a number of variables, fuel
-- that is enough.
--
-- Not modelled: the fields that the solver never reads (metadata, the id of a clause,
-- solutions_found_, the counter backtracks, the reference to the model), printing and logging, the
-- CBOR form of messages, opening a database, the trees that the parser library builds of operators,
-- the JSON forms that need one which the source does not have, and the agents, whose bodies are
-- empty.
pub mod Base
pub mod Soa
pub mod Sat
pub mod Text
pub mod Acl
pub mod Datastore
pub mod SatBuilder
pub mod Fabl
pub mod Examples
