-- ===== src/Interpreter/Ops.antt =====
-- One instruction of `interpreter_exec` in src/interpreter.c. `callee` is the `interpreter_exec` of
-- the function that CALL enters, and `depth` the number of call states on the coroutine's call stack.
use fluffy_vm.Prelude.{
  ℕ, zero, suc, ◌+◌, ◌-◌, true, false, not, List, [], ◌∷◌, Option, none, some, ltb, leb,
  if◌then◌else◌, get_elem?, get_or, set, take, drop, length, bit_and, bit_or,
}
use fluffy_vm.Prelude.Run.{Run, done, throw, crash, abort, out_of_bounds, ◌>>=◌}
use fluffy_vm.Value.{Value, Host, not_present, nil, table, closure}
use fluffy_vm.Value.Error.{
  Err, static, index_of, call_of, stack_overflow, stack_underflow, out_of_memory,
  attempt_to_call_nil_value,
}
use fluffy_vm.Value.Kind.{typename}
use fluffy_vm.Value.Equal.{Comparison, cmp_true}
use fluffy_vm.Hashtable.{Table, Failure}
use fluffy_vm.Hashtable.Keys.{hashtable_get, hashtable_set}
use fluffy_vm.Frame.{Frame, or_nil, set_register, get_register, pop, push, fresh}
use fluffy_vm.Interpreter.Closures.{closure_new, add_closure, or_null}
use fluffy_vm.Interpreter.Machine.{Proto, TableObject, Vm, Stop, raised, Outside, lift, error_of}

-- What the loop does next: the next instruction, or the end of the function with its `retCount`.
pub data Next (D : Type 0) : Type 0 where
  continue : Vm D → Frame D → ℕ → Next D
  returned : Vm D → Frame D → ℕ → Next D

abbrev pub call_stack_size : ℕ
call_stack_size = 512

-- FLUFFYVM_INTERPRETER_FLAG_EQUAL and FLUFFYVM_INTERPRETER_FLAG_LESS; `|=` and `&= ~` of an int.
unfoldable pub with_flag : ℕ → ℕ → Comparison → ℕ
with_flag flag_register flag cmp_true = bit_or flag_register flag
with_flag flag_register flag _ = bit_and flag_register (0xFFFFFFFF - flag)

module _ {D : Type 0} (host : Host D) where
  unfoldable pub table_at : Vm D → ℕ → Run (Stop D) (TableObject D)
  table_at vm t = elim (get_elem? vm.tables t) [ none ↦ crash out_of_bounds | some o ↦ done o ]

  -- The value at a key, when there is one; no table of theirs raises an error.
  unfoldable pub found : Vm D → Run Failure (Option (Value D)) → Run (Stop D) (Value D)
  found vm (done none) = done nil
  found vm (done (some v)) = done (or_nil v)
  found vm (throw e) = throw (raised (error_of e) vm)
  found vm (crash f) = crash f

  -- `value_table_get`, and the test of TABLE_GET on its result.
  unfoldable pub table_get : Vm D → Value D → Value D → Run (Stop D) (Value D)
  unfolding table_at found hashtable_get
  table_get vm (table t) key = do o ← table_at vm t; found vm (hashtable_get host o.table key)
  table_get vm other key = do name ← lift vm (typename other); throw (raised (index_of name) vm)

  -- A table that could not grow is as it was, and nobody looks at the result.
  unfoldable pub written :
      Vm D → ℕ → TableObject D → Run Failure (Table (Value D) (Value D)) → Run (Stop D) (Vm D)
  written vm t o (done table') =
      done (record vm { tables = set vm.tables t (record o { table = table' }) })
  written vm t o (throw e) = done vm
  written vm t o (crash f) = crash f

  -- TABLE_SET: `value_table_set` without a look at its result.
  unfoldable pub table_set : Outside D → Vm D → Value D → Value D → Value D → Run (Stop D) (Vm D)
  unfolding table_at written hashtable_set
  table_set outside vm (table t) key v = do
    o ← table_at vm t
    written vm t o (hashtable_set host o.load_factor (outside.table_memory vm) o.table key v)
  table_set outside vm not_present key v = crash abort
  table_set outside vm other key v = done vm

module _ {D : Type 0} where
  -- `coroutine_function_prolog`, for the closure with this number.
  unfoldable pub prolog : Outside D → ℕ → Vm D → ℕ → Run (Stop D) (Frame D)
  unfolding fresh
  prolog outside depth vm id =
      if not (outside.call_state_ok vm)
      then throw (raised (static out_of_memory) vm)
      else if leb call_stack_size depth
      then throw (raised (static stack_overflow) vm)
      else elim (get_elem? vm.closures id) [
        | none ↦ crash out_of_bounds
        | some c ↦ done (fresh (elim c.prototype [ none ↦ true | some p ↦ false ]) id c.env)
      ]

  unfoldable pub push_all : Frame D → List (Value D) → Run (Err D) (Frame D)
  push_all f [] = done f
  push_all f (v ∷ vs) = do f' ← push f v; push_all f' vs

  unfoldable pub pop_all : ℕ → Frame D → Run (Err D) (Frame D)
  pop_all zero f = done f
  pop_all (suc n) f = do (v, f') ← pop f; pop_all n f'

  -- `if (!interpreter_pop(...)) abort();`
  unfoldable pub or_abort : {A : Type 0} → Run (Err D) A → Run (Stop D) A
  or_abort (done a) = done a
  or_abort (throw e) = crash abort
  or_abort (crash f) = crash f

  -- The `returnCount` values from `startPos` on, with nil for those at the stack pointer and above.
  unfoldable pub results_from : Frame D → ℕ → ℕ → List (Value D)
  results_from g start zero = []
  results_from g start (suc n) =
      (if ltb start g.sp then get_or g.general_stack start not_present else nil)
      ∷ results_from g (start + 1) n

  -- The closure to call, or the error.
  unfoldable pub callable : Value D → Run (Err D) ℕ
  callable nil = throw (static attempt_to_call_nil_value)
  callable (closure c) = done c
  callable v = do name ← typename v; throw (call_of name)

  -- The arguments for field C of CALL: none, the whole stack, or the top C - 1 values.
  unfoldable pub arg_count : Frame D → ℕ → ℕ
  arg_count f zero = 0
  arg_count f (suc zero) = f.sp
  arg_count f (suc (suc n)) = suc n

  -- The values for field B: none, as many as the callee's stack holds, or B - 1.
  unfoldable pub return_count : Frame D → ℕ → ℕ
  return_count g zero = 0
  return_count g (suc zero) = g.sp
  return_count g (suc (suc n)) = suc n

  -- CALL, with its three fields.
  unfoldable pub call :
      Outside D
      → (Vm D → Frame D → Run (Stop D) (Vm D × Frame D × ℕ))
      → ℕ
      → Vm D
      → Frame D
      → ℕ
      → ℕ
      → ℕ
      → Run (Stop D) (Vm D × Frame D)
  unfolding prolog push_all pop_all or_abort results_from callable arg_count return_count
      get_register
  call outside callee depth vm f a b c =
      let n = arg_count f c in
      if ltb f.sp n then throw (raised (static stack_underflow) vm) else do
        v ← lift vm (get_register f a)
        id ← lift vm (callable v)
        g ← prolog outside depth vm id
        g' ← lift vm (push_all g (take n (drop (f.sp - n) f.general_stack)))
        (vm', g'', count) ← callee vm g'
        f' ← or_abort (pop_all n f)
        f'' ← lift vm' (push_all f' (results_from g'' (g''.sp - count) (return_count g'' b)))
        done (vm', f'')

  unfoldable pub kept : Frame D → Run (Err D) (Frame D) → Run (Err D) (Frame D)
  kept f (done f') = done f'
  kept f (throw e) = done f
  kept f (crash x) = crash x

  -- RETURN pushes `count` registers from `from` on; a full stack is not looked at.
  unfoldable pub push_registers : Frame D → ℕ → ℕ → Run (Err D) (Frame D)
  unfolding kept get_register
  push_registers f from zero = done f
  push_registers f from (suc n) = do
    v ← get_register f from
    f' ← kept f (push f v)
    push_registers f' (from + 1) n

  -- LOAD_PROTOTYPE. The index is not tested, and neither is the NULL that `closure_new` returns.
  unfoldable pub load_prototype :
      Outside D → Proto D → Vm D → Frame D → ℕ → ℕ → Run (Stop D) (Vm D × Frame D)
  unfolding closure_new or_null set_register
  load_prototype outside p vm f a b = elim (get_elem? p.prototypes b) [
    | none ↦ crash out_of_bounds
    | some q ↦ do
      c ← lift vm (or_null (closure_new outside vm q f.env))
      f' ← lift vm (set_register f a (closure (length vm.closures)))
      done (add_closure vm c, f')
  ]
