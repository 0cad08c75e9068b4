-- ===== src/Runtime.antt =====
-- src/fluffyvm.c: `Components` are set up and torn down, `Messages` the error message and the global table with their
-- roots, `Threads` the threads that the machine manages, `Setup` what single components set up (with
-- src/string_cache.c), `RefCounter` src/ref_counter.c.
pub mod Components
pub mod Messages
pub mod Threads
pub mod RefCounter
pub mod Setup
