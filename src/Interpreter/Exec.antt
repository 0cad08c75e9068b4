-- ===== src/Interpreter/Exec.antt =====
-- The loop of `interpreter_exec` in src/interpreter.c, on fuel.
use fluffy_vm.Prelude.{
  ℕ, zero, suc, ◌+◌, ◌-◌, ◌%◌, Option, none, some, ltb, leb, if◌then◌else◌, get_elem?, get_or,
  length,
}
use fluffy_vm.Prelude.Int.{word}
use fluffy_vm.Prelude.Run.{Run, done, throw, crash, out_of_bounds, ◌>>=◌}
use fluffy_vm.Value.{Value, Host, long}
use fluffy_vm.Value.Error.{Err, forward_jump, backward_jump, illegal_instruction}
use fluffy_vm.Value.Equal.{is_equal}
use fluffy_vm.Value.Math.{math_add, math_sub, math_mul, math_div, math_mod, math_pow, is_less}
use fluffy_vm.Frame.{Frame, set_register, get_register, pop_into, push}
use fluffy_vm.Interpreter.Decode.{
  Instruction, decode, Opcode, opcode_of, increment_count, is_skipped, op_nop, op_mov, op_table_get,
  op_table_set, op_call, op_stack_push, op_stack_pop, op_get_constant, op_return, op_extra,
  op_stack_gettop, op_load_prototype, op_add, op_sub, op_mul, op_div, op_mod, op_pow,
  op_jmp_forward, op_jmp_backward, op_cmp,
}
use fluffy_vm.Interpreter.Machine.{Proto, Vm, Stop, raised, exhausted, Outside, lift}
use fluffy_vm.Interpreter.Ops.{
  Next, continue, returned, with_flag, table_get, table_set, call, push_registers, load_prototype,
}

module _ {D : Type 0} (host : Host D) where
  -- The next instruction, after one that changes only the call state.
  abbrev pub next_with : Vm D → ℕ → Run (Err D) (Frame D) → Run (Stop D) (Next D)
  next_with vm pc m = do f ← lift vm m; done (continue vm f pc)

  -- ADD to POW: the operands are in the registers of the fields B and C.
  unfoldable pub arith_op :
      (Value D → Value D → Run (Err D) (Value D)) → Instruction → Frame D → Run (Err D) (Frame D)
  unfolding get_register set_register
  arith_op op ins f = do
    x ← get_register f ins.field_b
    y ← get_register f ins.field_c
    z ← op x y
    set_register f ins.field_a z

  -- CMP writes the two flags that it compares for.
  unfoldable pub compare : Instruction → Frame D → Run (Err D) (Frame D)
  unfolding get_register is_equal is_less with_flag
  compare ins f = do
    x ← get_register f ins.field_a
    y ← get_register f ins.field_b
    e ← is_equal host x y
    l ← is_less host x y
    done (record f { flag_register = with_flag (with_flag f.flag_register 1 e) 2 l })

  module _ (outside : Outside D) (callee : Vm D → Frame D → Run (Stop D) (Vm D × Frame D × ℕ))
      (depth : ℕ) (p : Proto D) where
    -- The `switch` of one instruction at `pc`, with the increment behind it.
    unfoldable pub execute : Opcode → Instruction → Vm D → Frame D → ℕ → Run (Stop D) (Next D)
    unfolding arith_op compare increment_count get_register set_register push pop_into table_get
        table_set call push_registers load_prototype
    execute op_nop ins vm f pc = done (continue vm f (pc + increment_count op_nop))
    execute op_mov ins vm f pc =
        next_with vm (pc + increment_count op_mov)
          (get_register f ins.field_b >>= λ v. set_register f ins.field_a v)
    execute op_table_get ins vm f pc = do
      t ← lift vm (get_register f ins.field_b)
      key ← lift vm (get_register f ins.field_c)
      v ← table_get host vm t key
      next_with vm (pc + increment_count op_table_get) (set_register f ins.field_a v)
    execute op_table_set ins vm f pc = do
      t ← lift vm (get_register f ins.field_a)
      key ← lift vm (get_register f ins.field_b)
      v ← lift vm (get_register f ins.field_c)
      vm' ← table_set host outside vm t key v
      done (continue vm' f (pc + increment_count op_table_set))
    execute op_call ins vm f pc = do
      (vm', f') ←
          call outside callee depth vm (record f { pc = pc }) ins.field_a ins.field_b ins.field_c
      done (continue vm' f' (pc + increment_count op_call))
    execute op_stack_push ins vm f pc =
        next_with vm (pc + increment_count op_stack_push)
          (get_register f ins.field_a >>= λ v. push f v)
    execute op_stack_pop ins vm f pc =
        next_with vm (pc + increment_count op_stack_pop) (pop_into f ins.field_a)
    execute op_get_constant ins vm f pc = elim (get_elem? p.constants ins.field_b) [
      | none ↦ throw (raised (illegal_instruction (get_or p.instructions pc 0)) vm)
      | some v ↦ next_with vm (pc + increment_count op_get_constant) (set_register f ins.field_a v)
    ]
    execute op_return ins vm f pc = do
      f' ← lift vm (push_registers f ins.field_a ins.field_b)
      done (returned vm (record f' { pc = pc }) ins.field_b)
    execute op_extra ins vm f pc =
        throw (raised (illegal_instruction (get_or p.instructions pc 0)) vm)
    execute op_stack_gettop ins vm f pc =
        next_with vm (pc + increment_count op_stack_gettop)
          (set_register f ins.field_a (long ((f.sp + word - 1) % word)))
    execute op_load_prototype ins vm f pc = do
      (vm', f') ← load_prototype outside p vm f ins.field_a ins.field_b
      done (continue vm' f' (pc + increment_count op_load_prototype))
    execute op_add ins vm f pc =
        next_with vm (pc + increment_count op_add) (arith_op (math_add host) ins f)
    execute op_sub ins vm f pc =
        next_with vm (pc + increment_count op_sub) (arith_op (math_sub host) ins f)
    execute op_mul ins vm f pc =
        next_with vm (pc + increment_count op_mul) (arith_op (math_mul host) ins f)
    execute op_div ins vm f pc =
        next_with vm (pc + increment_count op_div) (arith_op (math_div host) ins f)
    execute op_mod ins vm f pc =
        next_with vm (pc + increment_count op_mod) (arith_op (math_mod host) ins f)
    execute op_pow ins vm f pc =
        next_with vm (pc + increment_count op_pow) (arith_op (math_pow host) ins f)
    execute op_jmp_forward ins vm f pc =
        if leb (length p.instructions) (pc + ins.field_a)
        then throw (raised (forward_jump pc (length p.instructions)) vm)
        else done (continue vm f (pc + ins.field_a + increment_count op_jmp_forward))
    execute op_jmp_backward ins vm f pc =
        if ltb pc ins.field_a
        then throw (raised (backward_jump pc) vm)
        else done (continue vm f (pc - ins.field_a + increment_count op_jmp_backward))
    execute op_cmp ins vm f pc = next_with vm (pc + increment_count op_cmp) (compare ins f)

    unfoldable pub dispatch :
        Option Opcode → Instruction → Vm D → Frame D → ℕ → Run (Stop D) (Next D)
    unfolding execute
    dispatch none ins vm f pc = throw (raised (illegal_instruction (get_or p.instructions pc 0)) vm)
    dispatch (some op) ins vm f pc = execute op ins vm f pc

    -- One round of the loop. An instruction that its flags skip is not looked at further.
    unfoldable pub step : Vm D → Frame D → ℕ → Run (Stop D) (Next D)
    unfolding dispatch decode opcode_of is_skipped
    step vm f pc =
        let ins = decode (get_or p.instructions pc 0) in
        if is_skipped ins.cond_flags f.flag_register
        then done (continue vm f (pc + outside.skip_increment pc))
        else dispatch (opcode_of ins.opcode) ins vm f pc

  module _ (outside : Outside D) where
    -- `interpreter_exec` up to its loop.
    unfoldable pub enter :
        (Proto D → Vm D → Frame D → ℕ → Run (Stop D) (Vm D × Frame D × ℕ))
        → Vm D
        → Frame D
        → Run (Stop D) (Vm D × Frame D × ℕ)
    enter body vm f = elim (get_elem? vm.closures f.closure_id) [
      | none ↦ crash out_of_bounds
      | some c ↦ elim c.prototype [
        | none ↦ outside.native c.func vm f
        | some n ↦ elim (get_elem? vm.protos n) [
          | none ↦ crash out_of_bounds
          | some p ↦ body p vm f 0
        ]
      ]
    ]

    -- What is behind the `switch`: the rest of the loop, or the end.
    unfoldable pub proceed :
        (Vm D → Frame D → ℕ → Run (Stop D) (Vm D × Frame D × ℕ))
        → Run (Stop D) (Next D)
        → Run (Stop D) (Vm D × Frame D × ℕ)
    proceed rest (done (continue vm f pc)) = rest vm (record f { pc = pc }) pc
    proceed rest (done (returned vm f count)) = done (vm, f, count)
    proceed rest (throw e) = throw e
    proceed rest (crash x) = crash x

    -- The loop, from `pc`. `fuel` bounds the rounds, here and in each function that is called.
    unfoldable pub loop : ℕ → ℕ → Proto D → Vm D → Frame D → ℕ → Run (Stop D) (Vm D × Frame D × ℕ)
    unfolding step enter proceed
    loop zero depth p vm f pc = throw exhausted
    loop (suc fuel) depth p vm f pc =
        if ltb pc (length p.instructions)
        then proceed (loop fuel depth p)
            (step outside (enter (loop fuel (depth + 1))) depth p vm f pc)
        else done (vm, record f { pc = pc }, 0)

    -- `interpreter_exec` for the call state `f`.
    unfoldable pub exec : ℕ → ℕ → Vm D → Frame D → Run (Stop D) (Vm D × Frame D × ℕ)
    unfolding enter loop
    exec fuel depth vm f = enter (loop fuel depth) vm f
