-- ===== src/Interpreter.antt =====
-- src/interpreter.c, and src/closure.c in `Closures`: `Decode` the instruction word, `Machine` the objects, `Ops` the longer instructions,
-- `Exec` the loop of `interpreter_exec`, `Native` `interpreter_call`. On proofs: `Frames`, `Results` and `Calls` what the operations and CALL do
-- to a call state, `Kept`, `Invariant` and `Loop` one instruction and all of them, `Fuel` and `Straight` (with
-- `Ends`) the fuel and functions that end.
pub mod Decode
pub mod Machine
pub mod Closures
pub mod Ops
pub mod Exec
pub mod Frames
pub mod Results
pub mod Calls
pub mod Kept
pub mod Invariant
pub mod Loop
pub mod Fuel
pub mod Ends
pub mod Straight
pub mod Native
