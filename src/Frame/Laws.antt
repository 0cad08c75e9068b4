-- ===== src/Frame/Laws.antt =====
-- Registers and the general stack of src/interpreter.c: the invariant, and the stack as a list.
use native.Mathlib.Numerals.{add-one}
use fluffy_vm.Prelude.{
  Bool-cases, inl, inr, ℕ, suc, ◌+◌, ◌-◌, ◌≤◌, ◌<◌, ◌≡◌, ◌≢◌, refl, ap, ◌∙◌, arith, Bool, List, [],
  ◌∷◌, ◌++◌, length, get_or, set, take, length-set, length-replicate, take-set_end, take-set_above,
  take-suc, get_or-set, ◌==◌, if◌then◌else◌,
}
use fluffy_vm.Prelude.Run.{done, crash, assert_failed}
use fluffy_vm.Value.{Value, not_present}
use fluffy_vm.Value.Kind.{IsPresent}
use fluffy_vm.Frame.{
  Frame, registers_num, general_stack_size, reserved_start, assert_present, or_nil, set_register,
  get_register, pop, push, fresh,
}

module _ {D : Type 0} where
  -- The arrays have their sizes, and every value below the stack pointer is present.
  pub record IsFrame (f : Frame D) : Type 0 where
    pub stack_array : length f.general_stack ≡ general_stack_size
    pub within : f.sp ≤ general_stack_size
    pub present : (i : ℕ) → i < f.sp → IsPresent (get_or f.general_stack i not_present)

  -- The values on the general stack, the top one last.
  abbrev pub contents : Frame D → List (Value D)
  contents f = take f.sp f.general_stack

  assert_present-done : (v : Value D) → IsPresent v → assert_present v ≡ done tt
  unfolding assert_present
  assert_present-done not_present p = elim p [ ]
  assert_present-done _ p = refl

  pub or_nil-present : (v : Value D) → IsPresent v → or_nil v ≡ v
  or_nil-present not_present p = elim p [ ]
  or_nil-present _ p = refl

  -- `interpreter_push` of a present value, below the size of the stack: the value is on top, all else
  -- is kept, and the frame stays well formed.
  pub push_lem :
      (f : Frame D) (v : Value D)
      → IsFrame f
      → IsPresent v
      → f.sp < general_stack_size
      → (f' : Frame D) × (push f v ≡ done f')
        × IsFrame f'
        × (contents f' ≡ contents f ++ v ∷ [])
        × (f'.registers ≡ f.registers)
        × (f'.sp ≡ f.sp + 1)
  unfolding push
  push_lem f v w p lt = (
    record f { general_stack = set f.general_stack f.sp v; sp = f.sp + 1 },
    ground (arith, assert_present-done v),
    record {
      stack_array = rw length-set w.stack_array;
      within = omega arith;
      present = λ i h.
          rw (get_or-set f.general_stack f.sp i v not_present (rw w.stack_array lt))
            (elim (Bool-cases (f.sp == i)) [
              | inl e ↦ rw e p
              | inr e ↦ rw e (w.present i (ground arith))
            ]);
    },
    rw (add-one, take-set_end f.general_stack f.sp v (rw w.stack_array lt)),
    refl,
    refl,
  )

  -- `interpreter_pop` of a well-formed frame that is not empty: the value is the one on top, it is
  -- present, all below is kept, and the frame stays well formed.
  pub pop_lem :
      (f : Frame D)
      → IsFrame f
      → 0 < f.sp
      → (v : Value D) × (f' : Frame D) × (pop f ≡ done (v, f'))
        × IsPresent v
        × IsFrame f'
        × (contents f ≡ contents f' ++ v ∷ [])
        × (f'.registers ≡ f.registers)
        × (f'.sp + 1 ≡ f.sp)
  unfolding pop
  pop_lem f w lt =
      let v = get_or f.general_stack (f.sp - 1) not_present in
      let top : f.sp ≡ suc (f.sp - 1) = omega arith in
      let here = w.present (f.sp - 1) (omega arith) in
      (
        v,
        record f { sp = f.sp - 1; general_stack = set f.general_stack (f.sp - 1) not_present },
        ground (arith, assert_present-done v),
        here,
        record {
          stack_array = rw length-set w.stack_array;
          within = omega (arith, w.within);
          present = λ i h.
              rw
                (get_or-set f.general_stack (f.sp - 1) i not_present not_present
                  (rw w.stack_array (omega (arith, w.within))))
                (elim (Bool-cases (f.sp - 1 == i)) [
                  | inl e ↦ absurd (ground arith)
                  | inr e ↦ rw e (w.present i (omega arith))
                ]);
        },
        rw (take-set_above f.general_stack (f.sp - 1) (f.sp - 1) not_present (omega arith)) (
            ap (λ (n : ℕ). take n f.general_stack) top
            ∙ take-suc f.general_stack (f.sp - 1) not_present
                (rw w.stack_array (omega (arith, w.within)))),
        refl,
        omega arith,
      )

  -- Writing a register below FLUFFYVM_REGISTERS_NUM and reading it back gives the value; reading any
  -- other register number, the special ones included, gives what it gave before.
  pub get-set_register :
      (f : Frame D) (i j : ℕ) (v : Value D)
      → length f.registers ≡ registers_num
      → i < registers_num
      → IsPresent v
      → (f' : Frame D) × (set_register f i v ≡ done f')
        × (get_register f' j ≡ (if i == j then done v else get_register f j))
  unfolding set_register get_register
  get-set_register f i j v len lt p = (
    record f { registers = set f.registers i v },
    ground (arith, assert_present-done v),
    rw (get_or-set f.registers i j v not_present (rw len lt)) (ground (arith, or_nil-present v)),
  )

  -- A register number from FLUFFYVM_REGISTERS_NUM on that is not FLUFFYVM_INTERPRETER_RESERVED_START
  -- fails an assertion when it is written: also the rest of the reserved range, and the registers of
  -- the environment, of the current function and of nil.
  pub set_register_reserved :
      (f : Frame D) (i : ℕ) (v : Value D)
      → registers_num ≤ i
      → i ≢ reserved_start
      → IsPresent v
      → set_register f i v ≡ crash assert_failed
  unfolding set_register
  set_register_reserved f i v le ne p = ground (arith, assert_present-done v)

  -- A new call state is well formed, and its stack is empty.
  pub fresh-IsFrame :
      (is_native : Bool) (id : ℕ) (env : Value D)
      → IsFrame (fresh is_native id env) × (contents (fresh is_native id env) ≡ [])
  unfolding fresh
  fresh-IsFrame is_native id env = (
    record {
      stack_array = length-replicate {A = Value D} general_stack_size not_present;
      within = omega arith;
      present = λ i h. absurd (omega arith);
    },
    refl,
  )
