-- ===== src/Tests.antt =====
-- The theorems at concrete inputs.
mod Machine
mod Tables
mod Values
mod Threads
mod Programs
mod Calling
mod Stacks
mod Native
mod Fields
mod Protected
mod Loading
mod Runtimes
mod Texts
mod Queues
mod Coroutines
mod Resuming
mod Rooting
mod Strings
mod Utilities
