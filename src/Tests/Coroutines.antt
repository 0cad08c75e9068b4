-- ===== src/Tests/Coroutines.antt =====
-- A new coroutine, and a walk over a call stack, at concrete threads.
use fluffy_vm.Prelude.{
  ℕ, ◌≤◌, ◌≡◌, ◌≢◌, refl, arith, Bool, true, false, List, [], ◌∷◌, none, some, length, replicate,
  length-replicate, ltb,
}
use fluffy_vm.Prelude.Int.{pos, negsuc}
use fluffy_vm.Prelude.Run.{done}
use fluffy_vm.CallStack.{CallStack, Jump}
use fluffy_vm.CallStack.Laws.{IsSettled}
use fluffy_vm.CallStack.Walk.{
  CallInfo, CallFrame, lua_function, named, native_code, source_file_of, trace_frame,
  iterate_call_stack,
}
use fluffy_vm.CallStack.Walk.Laws.{frames_from, iterate_call_stack_lem}
use fluffy_vm.Coroutine.{Co, new_co, max_coroutine_nest, resume}
use fluffy_vm.Coroutine.New.{World, Request, create}
use fluffy_vm.Coroutine.New.Laws.{create_lem, create_full_lem}

abbrev request : Request
request = record {
  object_ok = true;
  stack_ok = true;
  memory = record { object = some 30; registers_ok = true; stack_ok = true };
  is_native = false;
}

abbrev one_state : CallStack
one_state = record { states = 10 ∷ []; current = some 10; handler = none; locked = false }

abbrev sleeping : ℕ → Co
sleeping c = new_co

abbrev alone : World
alone = record { thread = record { co = sleeping; nest = 0 ∷ [] }; stacks = λ c. one_state }

create_lem_example :
    (w' : World) × (create {D = ℕ} request alone 1 ≡ (w', done 1))
    × (w'.thread.nest ≡ 0 ∷ [])
    × ((w'.stacks 1).states ≡ 30 ∷ [])
    × IsSettled (w'.stacks 1)
    × ((d : ℕ) → d ≢ 1 → (w'.stacks d ≡ one_state) × (w'.thread.co d ≡ new_co))
    × ((resume w'.thread 1).1 ≡ done tt)
create_lem_example = (create_lem request alone 1 30 refl refl refl (omega arith)).0 refl refl

-- Coroutine 0 has resumed itself to the limit, as far as the thread's stack shows.
abbrev nested : World
nested = record {
  thread = record { co = sleeping; nest = 0 ∷ replicate 63 5 };
  stacks = λ c. one_state;
}

one_state-IsSettled : IsSettled one_state
one_state-IsSettled = record { settled = refl; free = refl }

nested_full : max_coroutine_nest ≤ length nested.thread.nest
nested_full = omega (arith, length-replicate {A = ℕ} 63 5)

create_full_lem_example :
    (w' : World) × (create {D = ℕ} request nested 1 ≡ (w', done 1))
    × ((w'.stacks 0).states ≡ 30 ∷ 10 ∷ [])
    × ((w'.stacks 1).states ≡ [])
    × (w'.thread.nest ≡ replicate 63 5)
create_full_lem_example =
    create_full_lem request nested 1 0 30 (replicate 63 5) refl refl refl refl refl refl
      (omega arith) nested_full one_state-IsSettled (omega arith)

-- A C function that a Lua function called.
abbrev info : ℕ → CallInfo
info s = record {
  source = none;
  func_name = some (112 ∷ []);
  line = negsuc 0;
  pc = 1;
  is_native = ltb 15 s;
  func = 99;
  prototype = some (record { bytecode = 3; source_file = 97 ∷ []; line_info = some (4 ∷ 8 ∷ []) });
}

abbrev main_frame : CallFrame
main_frame = record {
  state = 10;
  is_native = false;
  name = lua_function;
  source = source_file_of (97 ∷ []);
  line = pos 8;
  bytecode = some 3;
  is_main = true;
}

abbrev native_frame : CallFrame
native_frame = record {
  state = 20;
  is_native = true;
  name = named (112 ∷ []);
  source = native_code;
  line = negsuc 0;
  bytecode = some 3;
  is_main = false;
}

abbrev two_deep : CallStack
two_deep = record { states = 20 ∷ 10 ∷ []; current = some 20; handler = none; locked = false }

framed_both : frames_from {E = Jump ℕ} info 0 (10 ∷ 20 ∷ []) ≡ done (main_frame ∷ native_frame ∷ [])
unfolding trace_frame
framed_both = refl

-- The consumer keeps what it is shown, and wants one frame.
abbrev first_only : List CallFrame → CallFrame → List CallFrame × Bool
first_only seen frame = (frame ∷ seen, false)

iterate_call_stack_lem_example :
    (iterate_call_stack {D = ℕ} first_only info two_deep false []
      ≡ done (two_deep, main_frame ∷ []))
    × (iterate_call_stack {D = ℕ} first_only info two_deep true []
        ≡ done (two_deep, native_frame ∷ []))
iterate_call_stack_lem_example =
    (iterate_call_stack_lem first_only info two_deep (main_frame ∷ native_frame ∷ []) []
        framed_both).0
      refl
