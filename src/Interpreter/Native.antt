-- ===== src/Interpreter/Native.antt =====
-- `interpreter_call` of src/interpreter.c: a call made by a C function. `callee` is `interpreter_exec` of
-- the call state that is entered.
pub mod Laws
use fluffy_vm.Prelude.{ℕ, zero, suc, ◌+◌, ◌-◌, List, ltb, if◌then◌else◌, get_or}
use fluffy_vm.Prelude.Int.{ℤ, pos, negsuc}
use fluffy_vm.Prelude.Run.{Run, done, throw, crash, out_of_bounds, ◌>>=◌}
use fluffy_vm.Value.{Value, not_present, closure}
use fluffy_vm.Value.Error.{Err}
use fluffy_vm.Frame.{Frame, general_stack_size, pop, push}
use fluffy_vm.Interpreter.Machine.{Vm, Stop, Outside, lift}
use fluffy_vm.Interpreter.Ops.{prolog, push_all, results_from}

-- How many values the copying loop takes. With -1 it would be all, but the end is read from the new
-- call state, whose stack is empty; below that the loop does not run.
unfoldable pub native_arg_count : ℤ → ℕ
native_arg_count (pos n) = n
native_arg_count (negsuc n) = 0

module _ {D : Type 0} where
  -- `func.data.closure`, whose tag nobody looks at: the other payloads are no pointers to closures.
  unfoldable pub closure_of : Value D → Run (Err D) ℕ
  closure_of (closure c) = done c
  closure_of _ = crash out_of_bounds

  -- `callerState->generalStack[i]`
  unfoldable pub stack_slot : Frame D → ℕ → Run (Err D) (Value D)
  stack_slot f i =
      if ltb i general_stack_size
      then done (get_or f.general_stack i not_present)
      else crash out_of_bounds

  -- The copying loop, for `n` slots from `start` on.
  unfoldable pub copy_args : Frame D → Frame D → ℕ → ℕ → Run (Err D) (Frame D)
  unfolding stack_slot push
  copy_args f g start zero = done g
  copy_args f g start (suc n) = do
    v ← stack_slot f start
    g' ← push g v
    copy_args f g' (start + 1) n

  -- A pop whose result nobody looks at.
  pop_each : Frame D → Run (Err D) (Value D × Frame D) → Run (Err D) (Frame D)
  pop_each f (done (v, f')) = done f'
  pop_each f (throw e) = done f
  pop_each f (crash x) = crash x

  unfoldable pub remove_args : ℕ → Frame D → Run (Err D) (Frame D)
  unfolding pop_each pop
  remove_args zero f = done f
  remove_args (suc n) f = do f' ← pop_each f (pop f); remove_args n f'

  -- The results for `nret`: LUA_MULTRET is -1, and below that the loop does not run.
  unfoldable pub native_return_count : Frame D → ℤ → ℕ
  native_return_count g (pos n) = n
  native_return_count g (negsuc zero) = g.sp
  native_return_count g (negsuc (suc n)) = 0

  -- The arguments leave the caller's stack before the function runs.
  unfoldable pub native_call :
      Outside D
      → (Vm D → Frame D → Run (Stop D) (Vm D × Frame D × ℕ))
      → ℕ
      → Vm D
      → Frame D
      → Value D
      → ℤ
      → ℤ
      → Run (Stop D) (Vm D × Frame D)
  unfolding prolog push_all results_from native_arg_count closure_of copy_args remove_args
      native_return_count
  native_call outside callee depth vm f func nargs nret = do
    id ← lift vm (closure_of func)
    g ← prolog outside depth vm id
    let n = native_arg_count nargs
    g' ← lift vm (copy_args f g (f.sp - n) n)
    f' ← lift vm (remove_args n f)
    (vm', g'', count) ← callee vm g'
    f'' ← lift vm' (push_all f' (results_from g'' (g''.sp - count) (native_return_count g'' nret)))
    done (vm', f'')
