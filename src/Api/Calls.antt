-- ===== src/Api/Calls.antt =====
-- src/api_layer/lua54.c: the functions that call, raise an error and move values to another coroutine.
pub mod Laws
pub mod Move
use fluffy_vm.Prelude.{
  ℕ, zero, suc, ◌+◌, ◌-◌, not, Option, none, some, ltb, if◌then◌else◌, get_or, ◌==◌,
}
use fluffy_vm.Prelude.Int.{ℤ, pos, negsuc, ◌+ℤ◌, ◌-ℤ◌}
use fluffy_vm.Prelude.Run.{Run, done, throw, crash, ◌>>=◌, ◌>>◌}
use fluffy_vm.Value.{Value, not_present}
use fluffy_vm.Value.Error.{
  Err, static, expected_positive, stack_overflow, stack_underflow, thrown, invalid_nresults,
  negative_nargs, attempt_to_xmove_on_running_coroutine, attempt_to_xmove_on_dead_coroutine,
}
use fluffy_vm.Frame.{Frame, push, peek}
use fluffy_vm.Coroutine.{FiberState, running, suspended, dead}
use fluffy_vm.Interpreter.Machine.{Vm, Stop, Outside, lift}
use fluffy_vm.Interpreter.Ops.{kept}
use fluffy_vm.Interpreter.Native.{native_call}
use fluffy_vm.Api.{remove_value, checkstack, drop_values, gettop}

module _ {D : Type 0} where
  -- The two tests at the head of `lua_call`. LUA_MULTRET is -1.
  unfoldable pub check_counts : ℤ → ℤ → Run (Err D) (Unit {0})
  check_counts nargs (negsuc (suc n)) = throw (invalid_nresults (negsuc (suc n)))
  check_counts (negsuc n) nresults = throw (negative_nargs (negsuc n))
  check_counts nargs nresults = done tt

  -- `funcPosition + 1` is the place of the function; `lua_rotate` and `lua_pop` are those of `lua_remove`.
  unfoldable pub lua_call :
      Outside D
      → (Vm D → Frame D → Run (Stop D) (Vm D × Frame D × ℕ))
      → ℕ
      → Vm D
      → Frame D
      → ℤ
      → ℤ
      → Run (Stop D) (Vm D × Frame D)
  lua_call outside callee depth vm f nargs nresults = do
    lift vm (check_counts nargs nresults)
    let position = pos f.sp -ℤ nargs -ℤ pos 1
    func ← lift vm (peek f position)
    (vm', f') ← native_call outside callee depth vm f func nargs nresults
    f'' ← lift vm' (remove_value f' (position +ℤ pos 1))
    done (vm', f'')

  -- `lua_error`: the value on top, or the error of reading it. The assertion that the coroutine is the
  -- one that is executing is the caller's to meet.
  unfoldable pub lua_error : Frame D → Run (Err D) (Unit {0})
  unfolding peek gettop
  lua_error f = do v ← peek f (pos (gettop f) -ℤ pos 1); throw (thrown v)

  -- The pushing loop of `lua_xmove`, which does not look at the result of a push.
  unfoldable pub move_values : Frame D → Frame D → ℕ → ℕ → Run (Err D) (Frame D)
  unfolding kept push
  move_values from to start zero = done to
  move_values from to start (suc n) = do
    to' ← kept to (push to (get_or from.general_stack start not_present))
    move_values from to' (start + 1) n

  unfoldable pub move_checked : Frame D → Frame D → ℕ → Run (Err D) (Frame D × Frame D)
  unfolding checkstack move_values drop_values
  move_checked from to n = do
    fits ← checkstack to (pos 1)
    if not fits
        then throw (static stack_overflow)
        else if ltb from.sp n
        then throw (static stack_underflow)
        else do
          to' ← move_values from to (from.sp - n) n
          from' ← drop_values from (pos n)
          done (from', to')

  -- `lua_xmove` from one coroutine's call state to that of another, whose fiber is in the state given.
  -- The room is tested for one value.
  unfoldable pub xmove : FiberState → Frame D → Frame D → ℤ → Run (Err D) (Frame D × Frame D)
  unfolding move_checked
  xmove state from to (negsuc n) = throw (expected_positive (negsuc n))
  xmove running from to (pos n) = throw (static attempt_to_xmove_on_running_coroutine)
  xmove dead from to (pos n) = throw (static attempt_to_xmove_on_dead_coroutine)
  xmove suspended from to (pos n) = if n == 0 then done (from, to) else move_checked from to n
