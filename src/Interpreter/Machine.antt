-- ===== src/Interpreter/Machine.antt =====
-- What the interpreter of src/interpreter.c works on: the closures of src/closure.h, the prototypes of
-- src/bytecode.h, and the tables, each by its number; and how a run stops.
use fluffy_vm.Prelude.{ℕ, Bool, List, Option}
use fluffy_vm.Prelude.Run.{Run, done, throw, crash}
use fluffy_vm.Value.{Value}
use fluffy_vm.Value.Error.{Err, static, unset}
use fluffy_vm.Hashtable.{Table, Alloc, Failure, message, silent}
use fluffy_vm.Frame.{Frame}

-- `struct fluffyvm_closure`. A closure without a prototype is native: `func` is the number of its C
-- function with the data bound to it, and `lua_c_function` the `luaCFunction` that the Lua interface notes.
pub record Closure (D : Type 0) : Type 0 where
  pub prototype : Option ℕ
  pub func : ℕ
  pub env : Value D
  pub lua_c_function : Option ℕ

-- `struct fluffyvm_prototype` with the constants of its bytecode; the inner prototypes by number.
pub record Proto (D : Type 0) : Type 0 where
  pub instructions : List ℕ
  pub constants : List (Value D)
  pub prototypes : List ℕ

-- A table, with the load factor it was made with.
pub record TableObject (D : Type 0) : Type 0 where
  pub load_factor : D
  pub table : Table (Value D) (Value D)

pub record Vm (D : Type 0) : Type 0 where
  pub closures : List (Closure D)
  pub protos : List (Proto D)
  pub tables : List (TableObject D)

-- An error leaves the machine's objects as they are; `exhausted` is the model's own end, for a run
-- that is not over when its fuel is.
pub data Stop (D : Type 0) : Type 0 where
  raised : Err D → Vm D → Stop D
  exhausted : Stop D

-- What is not in the source: C functions, the collector's allocations, and the value of the `int` that
-- the jump to `skip_instruction` leaves uninitialised, at each instruction.
pub record Outside (D : Type 0) : Type 0 where
  pub native : ℕ → Vm D → Frame D → Run (Stop D) (Vm D × Frame D × ℕ)
  pub call_state_ok : Vm D → Bool
  pub closure_ok : Vm D → Bool
  pub table_memory : Vm D → Alloc
  pub skip_increment : ℕ → ℕ

module _ {D : Type 0} where
  -- An operation that does not touch the objects.
  abbrev pub lift : {A : Type 0} → Vm D → Run (Err D) A → Run (Stop D) A
  lift vm (done a) = done a
  lift vm (throw e) = throw (raised e vm)
  lift vm (crash f) = crash f

  abbrev pub error_of : Failure → Err D
  error_of (message m) = static m
  error_of silent = unset
