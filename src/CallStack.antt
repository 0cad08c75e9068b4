-- ===== src/CallStack.antt =====
-- The call stack of the coroutine that is executing: `coroutine_function_prolog` and `coroutine_function_epilog` of
-- src/coroutine.c with their lock, and `interpreter_error` and `interpreter_xpcall` of src/interpreter.c. A
-- call state is its address here: `Frame` is what it holds. `Walk` visits the call states for a trace.
pub mod Laws
pub mod Walk
use fluffy_vm.Prelude.{
  ℕ, zero, suc, Bool, true, false, not, ◌&&◌, List, [], ◌∷◌, Option, none, some, ◌==◌, leb,
  if◌then◌else◌, length,
}
use fluffy_vm.Prelude.Run.{Run, done, throw, crash, abort, assert_failed, deadlock, ◌>>=◌, ◌>>◌}
use fluffy_vm.Value.Error.{Err, static, out_of_memory, stack_overflow}
use fluffy_vm.Interpreter.Ops.{call_stack_size}

-- `callStack` with its top first, `currentCallState`, the address of the `jmp_buf` of the error handler, and
-- whether this thread holds `callStackLock`.
pub record CallStack : Type 0 where
  pub states : List ℕ
  pub current : Option ℕ
  pub handler : Option ℕ
  pub locked : Bool

abbrev pub top : List ℕ → Option ℕ
top [] = none
top (s ∷ ss) = some s

-- A jump to the handler, with what is left behind; or the model's fuel for handlers is used up.
pub data Jump (D : Type 0) : Type 0 where
  jump : Err D → CallStack → Jump D
  exhausted : Jump D

-- What the collector's allocations of a prolog come to: the new object's address, and whether the
-- arrays of registers (for a function of Lua) and of stack objects can be had.
pub record Memory : Type 0 where
  pub object : Option ℕ
  pub registers_ok : Bool
  pub stack_ok : Bool

unfoldable pub unlock : CallStack → CallStack
unlock c = record c { locked = false }

module _ {D : Type 0} where
  -- `pthread_mutex_lock`: a default mutex is not recursive.
  unfoldable pub lock : CallStack → Run (Jump D) CallStack
  lock c = if c.locked then crash deadlock else done (record c { locked = true })

  -- `internal_function_epilog` pops, and the state below is the current one.
  unfoldable pub internal_epilog : List ℕ → CallStack → Run (Jump D) CallStack
  internal_epilog [] c = crash assert_failed
  internal_epilog (s ∷ ss) c = done (record c { states = ss; current = top ss })

  unfoldable pub function_epilog : CallStack → Run (Jump D) CallStack
  unfolding lock unlock internal_epilog
  function_epilog c = do c' ← lock c; c'' ← internal_epilog c'.states c'; done (unlock c'')

  -- After the label `no_memory`, and after the label `error`: the error is in `errmsg`, and NULL is returned.
  unfoldable pub failed : Err D → CallStack → Run (Jump D) CallStack
  unfolding internal_epilog
  failed e c = do c' ← internal_epilog c.states c; throw (jump e c')

  -- The call state, once it is on the stack.
  unfoldable pub entered : Bool → Memory → ℕ → CallStack → Run (Jump D) CallStack
  unfolding failed
  entered is_native m object c =
      if not is_native && not m.registers_ok
      then failed (static out_of_memory) c
      else if not m.stack_ok
      then failed (static out_of_memory) c
      else done (record c { current = some object })

  prolog_at : Bool → Memory → CallStack → Option ℕ → Run (Jump D) CallStack
  unfolding lock unlock failed entered
  prolog_at is_native m c none = throw (jump (static out_of_memory) c)
  prolog_at is_native m c (some object) = do
    c' ← lock c
    if leb call_stack_size (length c'.states)
        then failed (static stack_overflow) c'
        else entered is_native m object (unlock (record c' { states = object ∷ c'.states }))

  -- `coroutine_function_prolog`. A failure is a `throw`: each caller but `coroutine_new` raises the error in
  -- `errmsg` at once.
  unfoldable pub function_prolog : Bool → Memory → CallStack → Run (Jump D) CallStack
  unfolding prolog_at
  function_prolog is_native m c = prolog_at is_native m c m.object

  error_at : Err D → CallStack → Option ℕ → Run (Jump D) CallStack
  error_at e c none = crash abort
  error_at e c (some h) = throw (jump e c)

  -- `interpreter_error`: with no handler, the process aborts.
  unfoldable pub interpreter_error : Err D → CallStack → Run (Jump D) CallStack
  unfolding error_at
  interpreter_error e c = error_at e c c.handler

  -- The failure of a callee that returned an error, raised.
  unfoldable pub or_error : Run (Jump D) CallStack → Run (Jump D) CallStack
  unfolding interpreter_error
  or_error (done c) = done c
  or_error (throw (jump e c)) = interpreter_error e c
  or_error (throw exhausted) = throw exhausted
  or_error (crash x) = crash x

unfoldable pub same : Option ℕ → Option ℕ → Bool
same none none = true
same (some a) (some b) = a == b
same _ _ = false

module _ {D : Type 0} where
  -- `while (co->currentCallState != callerState) coroutine_function_epilog_no_lock(vm);`
  unfoldable pub unwind : Option ℕ → List ℕ → Option ℕ → Run (Jump D) (List ℕ × Option ℕ)
  unfolding same
  unwind caller [] current = if same current caller then done ([], current) else crash assert_failed
  unwind caller (s ∷ ss) current =
      let rest = unwind caller ss (top ss) in
      if same current caller then done (s ∷ ss, current) else rest

  -- The end of the branch that `setjmp` enters by a jump.
  unfoldable pub recover : CallStack → CallStack → Run (Jump D) (CallStack × Bool)
  unfolding lock unlock unwind
  recover before c = do
    c' ← lock c
    (ss, current) ← unwind before.current c'.states c'.current
    done (record (unlock c') { states = ss; current = current; handler = before.handler }, false)

  -- A jump that arrives at `env`. An error in `handler` jumps there again, where it is another jump of its
  -- own: each uses up fuel.
  unfoldable pub caught :
      ℕ
      → ℕ
      → (CallStack → Run (Jump D) CallStack)
      → CallStack
      → Run (Jump D) CallStack
      → Run (Jump D) (CallStack × Bool)
  unfolding recover
  caught fuel env handler before (done c) = recover before c
  caught fuel env handler before (throw exhausted) = throw exhausted
  caught zero env handler before (throw (jump e c)) = throw exhausted
  caught (suc fuel) env handler before (throw (jump e c)) =
      if same c.handler (some env)
      then caught fuel env handler before (handler c)
      else throw (jump e c)
  caught fuel env handler before (crash x) = crash x

  after_body :
      ℕ
      → ℕ
      → (CallStack → Run (Jump D) CallStack)
      → CallStack
      → Run (Jump D) CallStack
      → Run (Jump D) (CallStack × Bool)
  unfolding caught
  after_body fuel env handler before (done c) = done (record c { handler = before.handler }, true)
  after_body fuel env handler before (throw e) = caught fuel env handler before (throw e)
  after_body fuel env handler before (crash x) = crash x

  -- `interpreter_xpcall`; `env` is the address of its `jmp_buf`. A `handler` that is NULL does nothing.
  unfoldable pub xpcall :
      ℕ
      → ℕ
      → (CallStack → Run (Jump D) CallStack)
      → (CallStack → Run (Jump D) CallStack)
      → CallStack
      → Run (Jump D) (CallStack × Bool)
  unfolding after_body
  xpcall fuel env body handler c =
      after_body fuel env handler c (body (record c { handler = some env }))
