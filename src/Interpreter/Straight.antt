-- ===== src/Interpreter/Straight.antt =====
-- Functions of src/interpreter.c without backward jumps and calls end.
use fluffy_vm.Prelude.{
  ℕ, zero, suc, ◌+◌, ◌-◌, ◌<◌, ◌≡◌, ◌≢◌, arith, Bool, true, false, some, ltb, leb, length, get_or,
  get_elem?, Bool-cases, inl, inr, Option-cases,
}
use fluffy_vm.Prelude.Run.{Run, done, throw, crash}
use fluffy_vm.Value.{Host}
use fluffy_vm.Frame.{Frame, get_register}
use fluffy_vm.Interpreter.Decode.{
  Instruction, decode, opcode_of, is_skipped, increment_count-eq-one, Opcode, op_nop, op_mov,
  op_table_get, op_table_set, op_call, op_stack_push, op_stack_pop, op_get_constant, op_return,
  op_extra, op_stack_gettop, op_load_prototype, op_add, op_sub, op_mul, op_div, op_mod, op_pow,
  op_jmp_forward, op_jmp_backward, op_cmp,
}
use fluffy_vm.Interpreter.Machine.{Proto, Vm, Stop, raised, exhausted, Outside, lift}
use fluffy_vm.Interpreter.Ops.{
  Next, continue, returned, table_get, table_set, push_registers, load_prototype,
}
use fluffy_vm.Interpreter.Exec.{execute, dispatch, step, enter, proceed, loop}
use fluffy_vm.Interpreter.Ends.{
  Ends, IsProgress, lift-Ends, bind-IsProgress, table_get-Ends, table_set-Ends, load_prototype-Ends,
  next_with-IsProgress,
}

-- The instructions that neither go back nor enter a function.
abbrev pub is_straight : Opcode → Bool
is_straight op_call = false
is_straight op_jmp_backward = false
is_straight _ = true

module _ {D : Type 0} where
  -- The instruction at `i`, if it has an opcode, goes neither back nor into a function.
  abbrev pub IsStraightAt : Proto D → ℕ → Type 0
  IsStraightAt p i =
      (op : Opcode)
      → opcode_of (decode (get_or p.instructions i 0)).opcode ≡ some op
      → is_straight op ≡ true

module _ {D : Type 0} (host : Host D) where
  module _ (outside : Outside D) (callee : Vm D → Frame D → Run (Stop D) (Vm D × Frame D × ℕ))
      (depth : ℕ) (p : Proto D) where
    execute-IsProgress :
        (op : Opcode) (ins : Instruction) (vm : Vm D) (f : Frame D) (pc : ℕ)
        → is_straight op ≡ true
        → IsProgress pc (execute host outside callee depth p op ins vm f pc)
    unfolding execute
    execute-IsProgress op_nop ins vm f pc s = omega (arith, increment_count-eq-one op_nop)
    execute-IsProgress op_table_get ins vm f pc s =
        bind-IsProgress pc (lift vm (get_register f ins.field_b)) _ (lift-Ends vm _) (λ t.
          bind-IsProgress pc (lift vm (get_register f ins.field_c)) _ (lift-Ends vm _) (λ key.
            bind-IsProgress pc (table_get host vm t key) _ (table_get-Ends host vm t key)
              (λ v. next_with-IsProgress host vm pc op_table_get _)))
    execute-IsProgress op_table_set ins vm f pc s =
        bind-IsProgress pc (lift vm (get_register f ins.field_a)) _ (lift-Ends vm _) (λ t.
          bind-IsProgress pc (lift vm (get_register f ins.field_b)) _ (lift-Ends vm _) (λ key.
            bind-IsProgress pc (lift vm (get_register f ins.field_c)) _ (lift-Ends vm _) (λ v.
              bind-IsProgress pc (table_set host outside vm t key v) _
                (table_set-Ends host outside vm t key v)
                (λ vm'. omega (arith, increment_count-eq-one op_table_set)))))
    execute-IsProgress op_call ins vm f pc s = cc
    execute-IsProgress op_get_constant ins vm f pc s =
        elim (Option-cases (get_elem? p.constants ins.field_b)) [
          | inl e ↦ rw (e, execute) tt
          | inr (v, e) ↦ rw (e, execute) (next_with-IsProgress host vm pc op_get_constant _)
        ]
    execute-IsProgress op_return ins vm f pc s =
        bind-IsProgress pc (lift vm (push_registers f ins.field_a ins.field_b)) _ (lift-Ends vm _)
          (λ g. tt)
    execute-IsProgress op_extra ins vm f pc s = tt
    execute-IsProgress op_load_prototype ins vm f pc s =
        bind-IsProgress pc (load_prototype outside p vm f ins.field_a ins.field_b) _
          (load_prototype-Ends host outside p vm f ins.field_a ins.field_b)
          (λ r. omega (arith, increment_count-eq-one op_load_prototype))
    execute-IsProgress op_jmp_forward ins vm f pc s =
        elim (Bool-cases (leb (length p.instructions) (pc + ins.field_a))) [
          | inl e ↦ rw (e, execute) tt
          | inr e ↦ rw (e, execute) (omega (arith, increment_count-eq-one op_jmp_forward))
        ]
    execute-IsProgress op_jmp_backward ins vm f pc s = cc
    execute-IsProgress op_mov ins vm f pc s = next_with-IsProgress host vm pc op_mov _
    execute-IsProgress op_stack_push ins vm f pc s = next_with-IsProgress host vm pc op_stack_push _
    execute-IsProgress op_stack_pop ins vm f pc s = next_with-IsProgress host vm pc op_stack_pop _
    execute-IsProgress op_stack_gettop ins vm f pc s =
        next_with-IsProgress host vm pc op_stack_gettop _
    execute-IsProgress op_add ins vm f pc s = next_with-IsProgress host vm pc op_add _
    execute-IsProgress op_sub ins vm f pc s = next_with-IsProgress host vm pc op_sub _
    execute-IsProgress op_mul ins vm f pc s = next_with-IsProgress host vm pc op_mul _
    execute-IsProgress op_div ins vm f pc s = next_with-IsProgress host vm pc op_div _
    execute-IsProgress op_mod ins vm f pc s = next_with-IsProgress host vm pc op_mod _
    execute-IsProgress op_pow ins vm f pc s = next_with-IsProgress host vm pc op_pow _
    execute-IsProgress op_cmp ins vm f pc s = next_with-IsProgress host vm pc op_cmp _

    step-IsProgress :
        (vm : Vm D) (f : Frame D) (pc : ℕ)
        → IsStraightAt p pc
        → 0 < outside.skip_increment pc
        → IsProgress pc (step host outside callee depth p vm f pc)
    unfolding step dispatch
    step-IsProgress vm f pc straight positive =
        let ins = decode (get_or p.instructions pc 0) in
        elim (Bool-cases (is_skipped ins.cond_flags f.flag_register)) [
          | inl skipped ↦ rw (skipped, step) (omega arith)
          | inr e ↦ elim (Option-cases (opcode_of ins.opcode)) [
            | inl bad ↦ rw (e, bad, step) tt
            | inr (op, is) ↦ rw (e, is, step) (execute-IsProgress op ins vm f pc (straight op is))
          ]
        ]

    proceed-Ends :
        (rest : Vm D → Frame D → ℕ → Run (Stop D) (Vm D × Frame D × ℕ)) (pc : ℕ)
        → ((vm : Vm D) (f : Frame D) (k : ℕ) → pc < k → Ends (rest vm f k))
        → (m : Run (Stop D) (Next D)) → IsProgress pc m
        → Ends (proceed host outside rest m)
    unfolding proceed
    proceed-Ends rest pc ih (done (continue vm f k)) e = ih vm (record f { pc = k }) k e
    proceed-Ends rest pc ih (done (returned vm f count)) e = tt
    proceed-Ends rest pc ih (throw (raised x vm)) e = tt
    proceed-Ends rest pc ih (throw exhausted) e = e
    proceed-Ends rest pc ih (crash x) e = tt

module _ {D : Type 0} (host : Host D) (outside : Outside D) (p : Proto D) where
  loop-Ends :
      (fuel depth : ℕ) (vm : Vm D) (f : Frame D) (pc : ℕ)
      → ((i : ℕ) → i < length p.instructions → IsStraightAt p i)
      → ((i : ℕ) → 0 < outside.skip_increment i)
      → length p.instructions - pc < fuel
      → Ends (loop host outside fuel depth p vm f pc)
  unfolding loop
  loop-Ends zero depth vm f pc straight positive enough = absurd (omega arith)
  loop-Ends (suc fuel) depth vm f pc straight positive enough =
      elim (Bool-cases (ltb pc (length p.instructions))) [
        | inl inside ↦
            rw (inside, loop)
              (proceed-Ends host outside (enter host outside (loop host outside fuel (depth + 1)))
                depth p (loop host outside fuel depth p) pc
                (λ vm1 f1 k lt. loop-Ends fuel depth vm1 f1 k straight positive (ground arith)) _
                (step-IsProgress host outside
                  (enter host outside (loop host outside fuel (depth + 1))) depth p vm f pc
                  (straight pc (ground arith)) (positive pc)))
        | inr end ↦ rw (end, loop) tt
      ]

  -- A function without backward jumps and calls ends, by a return, an error or a crash, after at most one
  -- round of the loop for each of its instructions, when every skipped instruction moves the program counter
  -- forward.
  pub straight_ends :
      (fuel depth : ℕ) (vm : Vm D) (f : Frame D)
      → ((i : ℕ) → i < length p.instructions → IsStraightAt p i)
      → ((i : ℕ) → 0 < outside.skip_increment i)
      → length p.instructions < fuel
      → loop host outside fuel depth p vm f 0 ≢ throw exhausted
  straight_ends fuel depth vm f straight positive enough e =
      rw e at (loop-Ends fuel depth vm f 0 straight positive (omega arith))
