-- ===== src/Lib.antt =====
-- FluffyVM: a register machine for Lua bytecode with coroutines, in C.
--
-- The parts, and how they meet. A value is a tagged union (src/value.c). A Lua table is a chained hash
-- table of values (src/hashtable.c), whose keys are compared and hashed by the value functions over the
-- byte hashes of src/hashing.c. A coroutine (src/coroutine.c) is a fiber (src/fiber.c) with a stack of
-- call states; a thread has a stack of the coroutines it executes (src/fluffyvm.c); both stacks are the
-- bounded stack of src/stack.c. A call state has registers and a general stack, which the interpreter
-- (src/interpreter.c) works on: it runs the instructions of a prototype and enters other functions. A C
-- function works on its general stack with the Lua 5.4 interface (src/api_layer/lua54.c). Prototypes come
-- from protobuf (src/bytecode.c), or from JSON that is packed for it (src/loader/bytecode/json.c). The
-- machine (src/fluffyvm.c) starts and stops the components, and keeps a message for each thread.
--
-- Which file models which part:
--   Prelude      shared names, lists, integers, masks, and `Run`, how a C function ends: it returns,
--                leaves by longjmp with an error, or the process dies
--   Hashing      src/hashing.c: hashing_hash_default, _fnv, _openjdk8, _xxhash
--   Value        src/value.c, src/value.h: `Error` the messages, `Kind` value_typename and the tests on
--                tags, `Hash` value_hash_code and value_get_len, `Equal` value_equals, `Math` the
--                operations of VALUE_MATH_OPS, value_math_mod, value_math_pow, value_is_less, `Print`
--                value_tostring, `New` the makers of strings and userdata, with src/string_cache.c's
--                string_cache_create_string
--   Stack        src/stack.c: stack_new, stack_push, stack_pop, stack_peek; `Lifo` is what it promises
--   Hashtable    src/hashtable.c over abstract keys: set_entry, resize, hashtable_new and the rest; `Keys`
--                with Lua values for keys; `Valid` the invariant and the map that a table stands for
--   Coroutine    src/fiber.c: fiber_resume, fiber_yield; src/coroutine.c: coroutine_resume,
--                coroutine_yield, coroutine_allow_yield; `Steps` one thread's history; `New` coroutine_new
--   Frame        src/coroutine.h: struct fluffyvm_call_state; src/interpreter.c: setRegister, getRegister,
--                interpreter_push, interpreter_pop, interpreter_pop2, interpreter_peek
--   Interpreter  src/interpreter.c: `Decode` the instruction word and its condition, `Machine` the
--                objects, `Closures` src/closure.c, `Ops` the instructions with more than a line, CALL among
--                them, `Exec` the loop of interpreter_exec, `Native` interpreter_call
--   CallStack    src/coroutine.c: coroutine_function_prolog and coroutine_function_epilog with their lock;
--                src/interpreter.c: interpreter_error, interpreter_xpcall; `Walk` coroutine_iterate_call_stack
--   Loader       src/bytecode.c: bytecode_load and the getters; src/loader/bytecode/json.c: `Validation` its
--                tests, `Json` bytecode_loader_json_load, `Roots` src/bytecode.c with the references in the
--                machine's root and the fields that its setters write
--   Runtime      src/fluffyvm.c: `Components` fluffyvm_new and fluffyvm_free, `Messages` the message of a
--                thread and the global table, `Threads` fluffyvm_start_thread, `Setup` the components that it
--                sets up itself, with src/string_cache.c: string_cache_init, string_cache_new; `RefCounter`
--                src/ref_counter.c
--   Collections  src/collections/queue.c
--   Util         src/util/util.c: `Calendar` util_timegm, `Iso8601` util_parse_iso8601, `Hex`
--                util_hex2bin; `Foreach` src/util/functional/foreach.c; `Stream` src/util/stream.c,
--                src/util/block_release_pool.c
--   Api          src/api_layer/lua54.c: lua_gettop, lua_absindex, lua_checkstack, lua_copy, lua_pop,
--                lua_pushvalue, lua_rotate, lua_remove, lua_replace, named without their prefix where that
--                is no word of its own (lua_pop is `drop_values`); `Calls` lua_call, lua_error, lua_xmove;
--                `Push` what pushes and stores, lua_createtable and lua_setfield among them; `Query` lua_type,
--                the tests and the conversions; `Functions` C functions, lua_newthread and lua_resume, which
--                is `stage` up to the switch to the other fiber and `trampoline` on it; `Rotate` src/util/util.c:
--                util_collections_rotate
--   Tests        small runs, and the theorems at concrete inputs
--
-- How state is modelled. A structure is a record, and an operation returns the new one. Objects that are
-- shared (tables, closures, prototypes) are numbers into the lists of `Vm`; the address of an object
-- is its number. A lock is modelled where an operation may keep it (`CallStack`, `Loader.Json`) or
-- waits (`Collections.Queue`, `Runtime.Threads`); elsewhere an operation holds it from end to end. A long is
-- its 64-bit pattern, with the wrap-around written out. An int that the code relies on not to overflow
-- ends the run when it would (the capacity of a table). The type of doubles is a parameter, with the
-- host's arithmetic, conversions, printf, strtod and XXH64 (`Host`). What the collector does is a parameter where
-- it decides something: which allocations succeed (`Alloc`, `Outside`). C functions are a parameter.
--
-- Fuel. `Interpreter.Exec.loop` takes fuel for its rounds and for the calls in them, since a program may
-- run forever. An outcome `exhausted` says that the fuel was not enough. One more than the number of
-- instructions is enough for a function without backward jumps and calls. The loader of JSON takes fuel for
-- the depth of the prototypes, which its theorem asks for by the validation that it passes; a protected
-- call takes fuel for the errors of its handler, and one that returns needs 1. The hash table, the stacks and
-- the coroutines need no fuel.
--
-- Not modelled: the collector, its roots but for the ones that an operation of the machine adds or
-- removes, and the finalizers that it calls (a library); the registration of descriptors with it; the
-- parser of JSON and the packing of protobuf (libraries); keys of pthreads; setjmp and longjmp as such; the
-- utilities that wrap libc and the clean-up attributes of src/util/auto_cleanups.c; and the programs main.c
-- and main2.c, which are demonstrations.
pub mod Prelude
pub mod Hashing
pub mod Value
pub mod Stack
pub mod Hashtable
pub mod Coroutine
pub mod Frame
pub mod Interpreter
pub mod Api
pub mod Util
pub mod CallStack
pub mod Loader
pub mod Runtime
pub mod Collections
pub mod Tests
