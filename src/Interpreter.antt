-- ===== src/Interpreter.antt =====
-- julep/execution/interpreter.py: the evaluation of a flow.
pub mod Env
pub mod Calls
pub mod Order
pub mod Static
pub mod Parts
pub mod Prims
pub mod Branches
pub mod Eval
pub mod Race
