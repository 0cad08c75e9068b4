-- ===== src/Interpreter/Invariant.antt =====
-- The loop of `interpreter_exec` in src/interpreter.c keeps a call state well formed and its program
-- counter inside the function, for every instruction and whatever the called functions do.
use fluffy_vm.Prelude.{
  ℕ, ◌+◌, ◌-◌, ◌%◌, ◌≤◌, ◌<◌, ◌≡◌, refl, arith, ltb, leb, length, get_elem?, Bool-cases, inl, inr,
  Option-cases,
}
use fluffy_vm.Prelude.Run.{Run, done, ◌>>=◌, >>=-eq-done, same_result}
use fluffy_vm.Value.{Value, Host, long}
use fluffy_vm.Value.Math.{math_add, math_sub, math_mul, math_div, math_mod, math_pow}
use fluffy_vm.Value.Error.{Err}
use fluffy_vm.Frame.{Frame, set_register, get_register}
use fluffy_vm.Prelude.Int.{word}
use fluffy_vm.Interpreter.Decode.{
  Instruction, Opcode, increment_count, increment_count-eq-one, op_nop, op_mov, op_table_get,
  op_table_set, op_call, op_stack_push, op_stack_pop, op_get_constant, op_return, op_extra,
  op_stack_gettop, op_load_prototype, op_add, op_sub, op_mul, op_div, op_mod, op_pow,
  op_jmp_forward, op_jmp_backward, op_cmp,
}
use fluffy_vm.Interpreter.Machine.{Proto, Vm, Stop, Outside, lift}
use fluffy_vm.Interpreter.Ops.{
  Next, continue, returned, table_get, table_set, call, push_registers, load_prototype,
}
use fluffy_vm.Interpreter.Exec.{next_with, arith_op, execute}
use fluffy_vm.Interpreter.Calls.{lift-done, call_lem}
use fluffy_vm.Interpreter.Frames.{
  IsLuaFrame, IsState-control, push-done, set_register-done, pop_into-done, push_registers-done,
}
use fluffy_vm.Interpreter.Kept.{
  IsKept, next_with-IsKept, arith_op-IsLuaFrame, compare-IsLuaFrame, load_prototype-IsLuaFrame,
}

module _ {D : Type 0} (host : Host D) where
  module _ (outside : Outside D) (callee : Vm D → Frame D → Run (Stop D) (Vm D × Frame D × ℕ))
      (depth : ℕ) (p : Proto D) (ins : Instruction) (vm : Vm D) (f : Frame D) (pc : ℕ)
      (w : IsLuaFrame f) (inside : pc < length p.instructions) where
    pub continue-IsKept :
        (vm' : Vm D) (g : Frame D) (k : ℕ) {n : Next D}
        → IsLuaFrame g
        → k ≤ length p.instructions
        → ◌≡◌ {A = Run (Stop D) (Next D)} (done (continue vm' g k)) (done n)
        → IsKept (length p.instructions) n
    continue-IsKept vm' g k {n} wg le h =
        let same : continue vm' g k ≡ n = same_result (done (continue vm' g k)) refl h in
        rw (← same) (wg, le)

    -- The instructions that write one register, from a value that may fail.
    write-IsKept :
        (op : Opcode) (m : Run (Err D) (Value D)) {n : Next D}
        → next_with host vm (pc + increment_count op) (m >>= λ v. set_register f ins.field_a v)
          ≡ done n
        → IsKept (length p.instructions) n
    write-IsKept op m h =
        next_with-IsKept host vm (pc + increment_count op) (length p.instructions) _ h
          (λ g k. let (v, _, k') = >>=-eq-done m _ k in (set_register-done f ins.field_a v w k').0)
          (omega (arith, increment_count-eq-one op))

    arith-IsKept :
        (op : Opcode) (m : Value D → Value D → Run (Err D) (Value D)) {n : Next D}
        → next_with host vm (pc + increment_count op) (arith_op host m ins f) ≡ done n
        → IsKept (length p.instructions) n
    arith-IsKept op m h =
        next_with-IsKept host vm (pc + increment_count op) (length p.instructions) _ h
          (λ g k. arith_op-IsLuaFrame host m ins f g w k) (omega (arith, increment_count-eq-one op))

    table_get-IsKept :
        {n : Next D}
        → execute host outside callee depth p op_table_get ins vm f pc ≡ done n
        → IsKept (length p.instructions) n
    unfolding execute
    table_get-IsKept h =
        let (t, _, h1) = >>=-eq-done (lift vm (get_register f ins.field_b)) _ h in
        let (key, _, h2) = >>=-eq-done (lift vm (get_register f ins.field_c)) _ h1 in
        let (v, _, h3) = >>=-eq-done (table_get host vm t key) _ h2 in
        write-IsKept op_table_get (done v) h3

    table_set-IsKept :
        {n : Next D}
        → execute host outside callee depth p op_table_set ins vm f pc ≡ done n
        → IsKept (length p.instructions) n
    unfolding execute
    table_set-IsKept h =
        let (t, _, h1) = >>=-eq-done (lift vm (get_register f ins.field_a)) _ h in
        let (key, _, h2) = >>=-eq-done (lift vm (get_register f ins.field_b)) _ h1 in
        let (v, _, h3) = >>=-eq-done (lift vm (get_register f ins.field_c)) _ h2 in
        let (vm', _, h4) = >>=-eq-done (table_set host outside vm t key v) _ h3 in
        continue-IsKept vm' f (pc + increment_count op_table_set) w
          (omega (arith, increment_count-eq-one op_table_set)) h4

    call-IsKept :
        {n : Next D}
        → execute host outside callee depth p op_call ins vm f pc ≡ done n
        → IsKept (length p.instructions) n
    unfolding execute
    call-IsKept h =
        let ((vm', g), called, h1) =
          >>=-eq-done
            (call outside callee depth vm (record f { pc = pc }) ins.field_a ins.field_b
              ins.field_c)
            _ h in
        let is =
          call_lem outside callee depth vm (record f { pc = pc }) ins.field_a ins.field_b
            ins.field_c (IsState-control f pc f.flag_register w) called in
        continue-IsKept vm' g (pc + increment_count op_call) is.5
          (omega (arith, increment_count-eq-one op_call)) h1

    load-IsKept :
        {n : Next D}
        → execute host outside callee depth p op_load_prototype ins vm f pc ≡ done n
        → IsKept (length p.instructions) n
    unfolding execute
    load-IsKept h =
        let ((vm', g), loaded, h1) =
          >>=-eq-done (load_prototype outside p vm f ins.field_a ins.field_b) _ h in
        continue-IsKept vm' g (pc + increment_count op_load_prototype)
          (load_prototype-IsLuaFrame outside p vm f ins.field_a ins.field_b w loaded)
          (omega (arith, increment_count-eq-one op_load_prototype)) h1

    return-IsKept :
        {n : Next D}
        → execute host outside callee depth p op_return ins vm f pc ≡ done n
        → IsKept (length p.instructions) n
    unfolding execute
    return-IsKept {n} h =
        let (g, pushed, h1) =
          >>=-eq-done (lift vm (push_registers f ins.field_a ins.field_b)) _ h in
        let same : returned vm (record g { pc = pc }) ins.field_b ≡ n =
          same_result (done (returned vm (record g { pc = pc }) ins.field_b)) refl h1 in
        let wg =
          push_registers-done ins.field_b f ins.field_a w
            (lift-done vm (push_registers f ins.field_a ins.field_b) pushed) in
        rw (← same) (IsState-control g pc g.flag_register wg)

    constant-IsKept :
        {n : Next D}
        → execute host outside callee depth p op_get_constant ins vm f pc ≡ done n
        → IsKept (length p.instructions) n
    unfolding execute
    constant-IsKept h = elim (Option-cases (get_elem? p.constants ins.field_b)) [
      | inl missing ↦ cc (rw (missing, execute) at h)
      | inr (v, is) ↦ write-IsKept op_get_constant (done v) (rw (is, execute) at h)
    ]

    pub execute-IsKept :
        (op : Opcode) {n : Next D}
        → execute host outside callee depth p op ins vm f pc ≡ done n
        → IsKept (length p.instructions) n
    unfolding execute
    execute-IsKept op_nop h =
        continue-IsKept vm f (pc + increment_count op_nop) w
          (omega (arith, increment_count-eq-one op_nop)) h
    execute-IsKept op_mov h = write-IsKept op_mov (get_register f ins.field_b) h
    execute-IsKept op_table_get h = table_get-IsKept h
    execute-IsKept op_table_set h = table_set-IsKept h
    execute-IsKept op_call h = call-IsKept h
    execute-IsKept op_stack_push h =
        next_with-IsKept host vm (pc + increment_count op_stack_push) (length p.instructions) _ h
          (λ g k.
            let (v, _, k') = >>=-eq-done (get_register f ins.field_a) _ k in (push-done f v w k').0)
          (omega (arith, increment_count-eq-one op_stack_push))
    execute-IsKept op_stack_pop h =
        next_with-IsKept host vm (pc + increment_count op_stack_pop) (length p.instructions) _ h
          (λ g k. pop_into-done f ins.field_a w k)
          (omega (arith, increment_count-eq-one op_stack_pop))
    execute-IsKept op_get_constant h = constant-IsKept h
    execute-IsKept op_return h = return-IsKept h
    execute-IsKept op_extra h = cc
    execute-IsKept op_stack_gettop h =
        write-IsKept op_stack_gettop (done (long ((f.sp + word - 1) % word))) h
    execute-IsKept op_load_prototype h = load-IsKept h
    execute-IsKept op_add h = arith-IsKept op_add (math_add host) h
    execute-IsKept op_sub h = arith-IsKept op_sub (math_sub host) h
    execute-IsKept op_mul h = arith-IsKept op_mul (math_mul host) h
    execute-IsKept op_div h = arith-IsKept op_div (math_div host) h
    execute-IsKept op_mod h = arith-IsKept op_mod (math_mod host) h
    execute-IsKept op_pow h = arith-IsKept op_pow (math_pow host) h
    execute-IsKept op_jmp_forward {n} h =
        elim (Bool-cases (leb (length p.instructions) (pc + ins.field_a))) [
          | inl over ↦ cc (rw (over, execute) at h)
          | inr room ↦
              continue-IsKept vm f (pc + ins.field_a + increment_count op_jmp_forward) w
                (ground (arith, increment_count-eq-one op_jmp_forward)) (rw (room, execute) at h)
        ]
    execute-IsKept op_jmp_backward {n} h = elim (Bool-cases (ltb pc ins.field_a)) [
      | inl under ↦ cc (rw (under, execute) at h)
      | inr room ↦
          continue-IsKept vm f (pc - ins.field_a + increment_count op_jmp_backward) w
            (omega (arith, increment_count-eq-one op_jmp_backward)) (rw (room, execute) at h)
    ]
    execute-IsKept op_cmp h =
        next_with-IsKept host vm (pc + increment_count op_cmp) (length p.instructions) _ h
          (λ g k. compare-IsLuaFrame host ins f g w k)
          (omega (arith, increment_count-eq-one op_cmp))
