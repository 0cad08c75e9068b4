-- ===== src/Tests/Native.antt =====
-- `lua_call` at a caller with a value, a function and an argument on its stack, and a callee that returns its
-- argument.
use fluffy_vm.Prelude.{ℕ, ◌+◌, ◌≤◌, arith, ◌≡◌, refl, false, List, [], ◌∷◌, ◌++◌}
use fluffy_vm.Prelude.Int.{pos, negsuc}
use fluffy_vm.Prelude.Run.{Run, done}
use fluffy_vm.Value.{Value, long, nil, closure}
use fluffy_vm.Value.Error.{Err}
use fluffy_vm.Frame.{Frame, fresh, push, pop, peek, registers_num, general_stack_size}
use fluffy_vm.Frame.Laws.{contents}
use fluffy_vm.Interpreter.Machine.{Vm, Stop}
use fluffy_vm.Interpreter.Ops.{push_all}
use fluffy_vm.Interpreter.Frames.{IsState, IsLuaFrame, push_all-done}
use fluffy_vm.Interpreter.Native.{native_call}
use fluffy_vm.Api.{remove_value}
use fluffy_vm.Api.Calls.{lua_call, check_counts, xmove}
use fluffy_vm.Api.Calls.Laws.{lua_call_lem, IsLuaCall}
use fluffy_vm.Api.Calls.Move.{xmove_lem}
use fluffy_vm.Coroutine.{suspended}
use fluffy_vm.Tests.Programs.{loaded, outside, fresh-IsLuaFrame}

abbrev identity : Vm ℕ → Frame ℕ → Run (Stop ℕ) (Vm ℕ × Frame ℕ × ℕ)
identity vm g = done (vm, g, 1)

abbrev frame_of : Run (Err ℕ) (Frame ℕ) → Frame ℕ
frame_of (done f) = f
frame_of _ = fresh false 0 nil

abbrev on_stack : List (Value ℕ)
on_stack = long 9 ∷ closure 0 ∷ long 5 ∷ []

abbrev caller : Frame ℕ
caller = frame_of (push_all (fresh false 0 nil) on_stack)

caller_pushed : push_all (fresh false 0 nil) on_stack ≡ done caller
unfolding push_all push fresh
caller_pushed = refl

caller-IsLuaFrame : IsLuaFrame caller
caller-IsLuaFrame = (push_all-done (fresh false 0 nil) on_stack fresh-IsLuaFrame caller_pushed).0

caller-contents : contents caller ≡ (long 9 ∷ []) ++ closure 0 ∷ long 5 ∷ []
unfolding push_all push fresh
caller-contents = refl

abbrev called : Run (Stop ℕ) (Vm ℕ × Frame ℕ)
called = lua_call outside identity 1 loaded caller (pos 1) (negsuc 0)

abbrev after_of : Run (Stop ℕ) (Vm ℕ × Frame ℕ) → Frame ℕ
after_of (done (vm, f)) = f
after_of _ = fresh false 0 nil

called_returns : called ≡ done (loaded, after_of called)
unfolding lua_call check_counts native_call remove_value push pop peek
called_returns = refl

called_leaves : contents (after_of called) ≡ long 9 ∷ long 5 ∷ []
unfolding lua_call check_counts native_call remove_value push pop peek
called_leaves = refl

lua_call_lem_example :
    (g g' : Frame ℕ) × (id count : ℕ) × (results : List (Value ℕ)) × IsLuaCall identity
      (after_of called)
      (closure 0)
      (negsuc 0)
      loaded
      loaded
      id
      (long 9 ∷ [])
      (long 5 ∷ [])
      results
      g
      g'
      count
    × IsState registers_num (after_of called)
lua_call_lem_example =
    lua_call_lem outside identity 1 loaded caller (long 9 ∷ []) (long 5 ∷ []) (closure 0) (negsuc 0)
      caller-IsLuaFrame caller-contents called_returns

-- Two of the caller's three values go to an empty stack.
xmove_lem_example :
    (from' to' : Frame ℕ) × (xmove suspended caller (fresh false 0 nil) (pos 2) ≡ done (from', to'))
    × (contents from' ≡ long 9 ∷ [])
    × (contents to' ≡ contents (fresh {D = ℕ} false 0 nil) ++ closure 0 ∷ long 5 ∷ [])
    × IsState registers_num from'
    × IsState registers_num to'
unfolding fresh
xmove_lem_example =
    xmove_lem caller (fresh false 0 nil) (long 9 ∷ []) (closure 0 ∷ long 5 ∷ []) caller-IsLuaFrame
      fresh-IsLuaFrame caller-contents few
  where
    few : 0 + 2 ≤ general_stack_size
    few = omega arith
