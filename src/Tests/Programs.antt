-- ===== src/Tests/Programs.antt =====
-- Two small functions in the interpreter: `main` calls `twice` on 5, and adds its result to itself.
use fluffy_vm.Prelude.{
  ℕ, zero, suc, length-replicate, ◌<◌, ◌≡◌, ◌≢◌, refl, arith, true, false, List, [], ◌∷◌, Option,
  none, some, length,
}
use fluffy_vm.Prelude.Run.{Run, done, throw}
use fluffy_vm.Value.{Value, not_present, long, nil}
use fluffy_vm.Value.Math.{math_add}
use fluffy_vm.Frame.{Frame, fresh, pop, registers_num}
use fluffy_vm.Frame.Laws.{contents, fresh-IsFrame}
use fluffy_vm.Interpreter.Decode.{encode, decode, opcode_of}
use fluffy_vm.Interpreter.Machine.{Proto, Vm, Stop, exhausted, Outside}
use fluffy_vm.Interpreter.Exec.{exec, loop}
use fluffy_vm.Interpreter.Frames.{IsLuaFrame}
use fluffy_vm.Interpreter.Loop.{loop-IsLuaFrame}
use fluffy_vm.Interpreter.Straight.{IsStraightAt, straight_ends}
use fluffy_vm.Tests.Machine.{machine}

abbrev instruction : ℕ → ℕ → ℕ → ℕ → ℕ
instruction op a b c =
    encode (record { opcode = op; cond_flags = 0; field_a = a; field_b = b; field_c = c })

-- R(0) = 5; R(2) = twice; push R(0); R(2) with one argument and one result; pop R(3);
-- R(4) = R(3) + R(3); return R(4)
abbrev main : Proto ℕ
main = record {
  instructions =
      instruction 7 0 0 0
      ∷ instruction 11 2 0 0
      ∷ instruction 5 0 0 0
      ∷ instruction 4 2 2 2
      ∷ instruction 6 3 0 0
      ∷ instruction 12 4 3 3
      ∷ instruction 8 4 1 0
      ∷ [];
  constants = long 5 ∷ [];
  prototypes = 1 ∷ [];
}

abbrev twice : Proto ℕ
twice = record {
  instructions = instruction 6 0 0 0 ∷ instruction 12 1 0 0 ∷ instruction 8 1 1 0 ∷ [];
  constants = [];
  prototypes = [];
}

abbrev pub loaded : Vm ℕ
loaded = record {
  closures = record { prototype = some 0; func = 0; env = nil; lua_c_function = none } ∷ [];
  protos = main ∷ twice ∷ [];
  tables = [];
}

abbrev pub outside : Outside ℕ
outside = record {
  native = λ n vm f. done (vm, f, 0);
  call_state_ok = λ vm. true;
  closure_ok = λ vm. true;
  table_memory = λ vm. record { array_ok = true; moved_ok = λ n. true; pair_ok = true };
  skip_increment = λ pc. 1;
}

abbrev outcome : Run (Stop ℕ) (Vm ℕ × Frame ℕ × ℕ) → Option (List (Value ℕ) × ℕ)
outcome (done (vm, f, count)) = some (contents f, count)
outcome _ = none

-- `main` returns 20.
main_runs : outcome (exec machine outside 20 1 loaded (fresh false 0 nil)) ≡ some (long 20 ∷ [], 1)
unfolding exec pop math_add
main_runs = refl

pub fresh-IsLuaFrame : IsLuaFrame {D = ℕ} (fresh false 0 nil)
unfolding fresh
fresh-IsLuaFrame = record {
  base = (fresh-IsFrame false 0 nil).0;
  register_array = length-replicate {A = Value ℕ} registers_num not_present;
}

abbrev main_run : Run (Stop ℕ) (Vm ℕ × Frame ℕ × ℕ)
main_run = loop machine outside 20 1 main loaded (fresh false 0 nil) 0

abbrev frame_of : Run (Stop ℕ) (Vm ℕ × Frame ℕ × ℕ) → Frame ℕ
frame_of (done (vm, f, count)) = f
frame_of _ = fresh false 0 nil

abbrev vm_of : Run (Stop ℕ) (Vm ℕ × Frame ℕ × ℕ) → Vm ℕ
vm_of (done (vm, f, count)) = vm
vm_of _ = loaded

main_returns : main_run ≡ done (vm_of main_run, frame_of main_run, 1)
unfolding loop pop math_add
main_returns = refl

loop-IsLuaFrame_example : IsLuaFrame (frame_of main_run)
loop-IsLuaFrame_example =
    loop-IsLuaFrame machine outside 20 1 main loaded (fresh false 0 nil) 0 fresh-IsLuaFrame
      main_returns

-- `twice` does not call and does not jump back.
twice-IsStraight : (i : ℕ) → i < length twice.instructions → IsStraightAt twice i
unfolding decode opcode_of
twice-IsStraight zero h op e = ground arith
twice-IsStraight (suc zero) h op e = ground arith
twice-IsStraight (suc (suc zero)) h op e = ground arith
twice-IsStraight (suc (suc (suc i))) h op e = absurd (omega arith)

straight_ends_example :
    loop machine outside 4 1 twice loaded (fresh false 0 nil) 0 ≢ throw exhausted
straight_ends_example =
    straight_ends machine outside twice 4 1 loaded (fresh false 0 nil) twice-IsStraight
      (λ i. omega arith) (omega arith)
