-- ===== src/Frame.antt =====
-- A call state: `struct fluffyvm_call_state` of src/coroutine.h, and the registers and the general
-- stack of src/interpreter.c. The arrays of objects that the collector scans mirror the two value
-- arrays, and are not kept.
pub mod Laws
use fluffy_vm.Prelude.{
  ℕ, ◌+◌, ◌-◌, ◌^◌, Bool, true, false, not, ◌&&◌, List, [], ◌∷◌, Option, none, some, ◌==◌, leb, ltb,
  if◌then◌else◌, get_or, set, replicate,
}
use fluffy_vm.Prelude.Int.{ℤ, pos, negsuc}
use fluffy_vm.Prelude.Run.{Run, done, throw, crash, assert_failed, ◌>>=◌, ◌>>◌}
use fluffy_vm.Value.{Value, not_present, nil, closure}
use fluffy_vm.Value.Error.{Err, static, stack_overflow, stack_underflow}

-- FLUFFYVM_REGISTERS_NUM, FLUFFYVM_GENERAL_STACK_SIZE, and the register numbers with a meaning.
abbrev pub registers_num : ℕ
registers_num = 256

abbrev pub general_stack_size : ℕ
general_stack_size = 256

abbrev pub register_always_nil : ℕ
register_always_nil = 0xFFFF

abbrev pub register_env : ℕ
register_env = 0xFFFE

abbrev pub register_current : ℕ
register_current = 0xFFFD

abbrev pub reserved_start : ℕ
reserved_start = 0xFF00

-- `closure` is the number of the closure, and `env` its environment, which is not written once the
-- closure can be called.
pub record Frame (D : Type 0) : Type 0 where
  pub closure_id : ℕ
  pub env : Value D
  pub general_stack : List (Value D)
  pub registers : List (Value D)
  pub flag_register : ℕ
  pub pc : ℕ
  pub sp : ℕ

-- The second bound is FLUFFYVM_INTERPRETER_RESERVED_START too, as in the source.
unfoldable pub is_ignored_register : ℕ → Bool
is_ignored_register index =
    not (index == register_env) && leb reserved_start index && leb index reserved_start

module _ {D : Type 0} where
  -- `assert(value.type != FLUFFYVM_TVALUE_NOT_PRESENT)`
  unfoldable pub assert_present : Value D → Run (Err D) (Unit {0})
  assert_present not_present = crash assert_failed
  assert_present _ = done tt

  abbrev pub or_nil : Value D → Value D
  or_nil not_present = nil
  or_nil v = v

  unfoldable pub set_register : Frame D → ℕ → Value D → Run (Err D) (Frame D)
  unfolding assert_present is_ignored_register
  set_register f index v = do
    assert_present v
    if is_ignored_register index
        then done f
        else if ltb index registers_num
        then done (record f { registers = set f.registers index v })
        else crash assert_failed

  unfoldable pub get_register : Frame D → ℕ → Run (Err D) (Value D)
  get_register f index =
      if index == register_env
      then done f.env
      else if index == register_current
      then done (closure f.closure_id)
      else if index == register_always_nil
      then done nil
      else if ltb index registers_num
      then done (or_nil (get_or f.registers index not_present))
      else crash assert_failed

  unfoldable pub pop : Frame D → Run (Err D) (Value D × Frame D)
  unfolding assert_present
  pop f = if f.sp == 0 then throw (static stack_underflow) else do
    let v = get_or f.general_stack (f.sp - 1) not_present
    assert_present v
    done (v, record f { sp = f.sp - 1; general_stack = set f.general_stack (f.sp - 1) not_present })

  -- `interpreter_pop2`
  unfoldable pub pop_into : Frame D → ℕ → Run (Err D) (Frame D)
  pop_into f destination = do (v, f') ← pop f; set_register f' destination v

  unfoldable pub push : Frame D → Value D → Run (Err D) (Frame D)
  unfolding assert_present
  push f v = if leb general_stack_size f.sp then throw (static stack_overflow) else do
    assert_present v
    done (record f { general_stack = set f.general_stack f.sp v; sp = f.sp + 1 })

  unfoldable pub peek : Frame D → ℤ → Run (Err D) (Value D)
  peek f (negsuc n) = throw (static stack_underflow)
  peek f (pos i) =
      if ltb i f.sp
      then done (get_or f.general_stack i not_present)
      else throw (static stack_overflow)

  -- `coroutine_function_prolog`: what a new call state holds. A native function has no registers.
  unfoldable pub fresh : Bool → ℕ → Value D → Frame D
  fresh is_native id env = record {
    closure_id = id;
    env = env;
    general_stack = replicate general_stack_size not_present;
    registers = if is_native then [] else replicate registers_num not_present;
    flag_register = 0;
    pc = 0;
    sp = 0;
  }
