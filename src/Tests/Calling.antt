-- ===== src/Tests/Calling.antt =====
-- CALL at a concrete caller, with a callee that returns its argument.
use fluffy_vm.Prelude.{ℕ, ◌<◌, ◌≡◌, refl, false, List}
use fluffy_vm.Prelude.Run.{Run, done}
use fluffy_vm.Value.{Value, long, nil}
use fluffy_vm.Value.Error.{Err}
use fluffy_vm.Frame.{Frame, fresh, push, pop, registers_num, register_current}
use fluffy_vm.Interpreter.Machine.{Vm, Stop}
use fluffy_vm.Interpreter.Ops.{call, call_stack_size}
use fluffy_vm.Interpreter.Frames.{IsState, IsLuaFrame, push-done}
use fluffy_vm.Interpreter.Calls.{IsCall, call_lem}
use fluffy_vm.Tests.Programs.{loaded, outside, fresh-IsLuaFrame}

abbrev identity : Vm ℕ → Frame ℕ → Run (Stop ℕ) (Vm ℕ × Frame ℕ × ℕ)
identity vm g = done (vm, g, 1)

abbrev frame_of : Run (Err ℕ) (Frame ℕ) → Frame ℕ
frame_of (done f) = f
frame_of _ = fresh false 0 nil

-- A caller with 3 on its stack.
abbrev caller : Frame ℕ
caller = frame_of (push (fresh false 0 nil) (long 3))

caller_pushed : push (fresh false 0 nil) (long 3) ≡ done caller
unfolding push fresh
caller_pushed = refl

caller-IsLuaFrame : IsLuaFrame caller
caller-IsLuaFrame = (push-done (fresh false 0 nil) (long 3) fresh-IsLuaFrame caller_pushed).0

-- The caller calls itself, with one argument and two results.
abbrev called : Run (Stop ℕ) (Vm ℕ × Frame ℕ)
called = call outside identity 1 loaded caller register_current 3 2

abbrev after_of : Run (Stop ℕ) (Vm ℕ × Frame ℕ) → Frame ℕ
after_of (done (vm, f)) = f
after_of _ = fresh false 0 nil

called_returns : called ≡ done (loaded, after_of called)
unfolding call push pop
called_returns = refl

call_lem_example :
    (g g' : Frame ℕ) × (id count : ℕ) × (1 < call_stack_size)
    × IsState registers_num (after_of called)
    × (base args results : List (Value ℕ)) × IsCall identity caller
        (after_of called)
        register_current
        3
        2
        loaded
        loaded
        id
        base
        args
        results
        g
        g'
        count
call_lem_example =
    call_lem outside identity 1 loaded caller register_current 3 2 caller-IsLuaFrame called_returns
