-- ===== src/Coroutine/New.antt =====
-- `coroutine_new` of src/coroutine.c, `value_new_coroutine` of src/value.c and `lateInit` of src/fluffyvm.c: the call stack of a
-- new coroutine, and the first call state on it, which `coroutine_function_prolog` makes.
pub mod Laws
use fluffy_vm.Prelude.{
  ℕ, Bool, true, false, not, List, [], ◌∷◌, Option, none, some, ◌==◌, if◌then◌else◌,
}
use fluffy_vm.Prelude.Run.{Run, done, throw, crash, assert_failed, null_dereference}
use fluffy_vm.Value.{Value, not_present, coroutine}
use fluffy_vm.Value.Error.{Err, static, out_of_memory}
use fluffy_vm.Value.Kind.{get_object_ptr}
use fluffy_vm.CallStack.{CallStack, Memory, Jump, jump, exhausted, function_prolog}
use fluffy_vm.Coroutine.{Co, Thread, new_co, set_co, executing, push_current, pop_current, running}

-- One thread, and the call stack of each coroutine.
pub record World : Type 0 where
  pub thread : Thread
  pub stacks : ℕ → CallStack

abbrev pub set_stack : (ℕ → CallStack) → ℕ → CallStack → ℕ → CallStack
set_stack f c s d = if d == c then s else f d

-- What the new coroutine needs: its object and its stack, and those of its first call state.
pub record Request : Type 0 where
  pub object_ok : Bool
  pub stack_ok : Bool
  pub memory : Memory
  pub is_native : Bool

abbrev pub empty_stack : CallStack
empty_stack = record { states = []; current = none; handler = none; locked = false }

-- `fluffyvm_push_current_coroutine`, whose result nobody looks at here.
unfoldable pub push_kept : Thread → ℕ → Thread
unfolding push_current
push_kept t c = elim (push_current t c) [ done t' ↦ t' | throw e ↦ t | crash x ↦ t ]

module _ {D : Type 0} where
  -- After the prolog for the coroutine `d`, which is the one that is executing.
  unfoldable pub begun : World → ℕ → ℕ → Run (Jump D) CallStack → World × Run (Err D) ℕ
  unfolding pop_current
  begun w c d (done s) = (
    record {
      thread = pop_current (record w.thread { co = set_co w.thread.co c new_co });
      stacks = set_stack w.stacks d s;
    },
    done c,
  )
  begun w c d (throw (jump e s)) =
      (record { thread = pop_current w.thread; stacks = set_stack w.stacks d s }, throw e)
  begun w c d (throw exhausted) = (w, crash assert_failed)
  begun w c d (crash x) = (w, crash x)

  begin_at : Request → World → ℕ → Option ℕ → World × Run (Err D) ℕ
  unfolding begun
  begin_at q w c none = (w, crash assert_failed)
  begin_at q w c (some d) = begun w c d (function_prolog q.is_native q.memory (w.stacks d))

  -- `coroutine_new`; the coroutine has the number `c`.
  unfoldable pub create : Request → World → ℕ → World × Run (Err D) ℕ
  unfolding push_kept begin_at
  create q w c =
      if not q.object_ok
      then (w, throw (static out_of_memory))
      else if not q.stack_ok
      then (w, throw (static out_of_memory))
      else (let t = push_kept w.thread c in
          begin_at q (record { thread = t; stacks = set_stack w.stacks c empty_stack }) c
            (executing t.nest))

  -- `value_new_coroutine` tags the NULL of a failure as a coroutine: whoever pushes the value reads
  -- through it.
  unfoldable pub new_coroutine_value : Run (Err D) ℕ → Run (Err D) (Value D)
  new_coroutine_value (done c) = done (coroutine c)
  new_coroutine_value (throw e) = crash null_dereference
  new_coroutine_value (crash x) = crash x

  -- `lateInit`, when there is a closure for it: the main coroutine executes from then on, as a native thread. The result of
  -- the push is not looked at.
  late_at : World → Run (Err D) ℕ → World × Run (Err D) Bool
  unfolding push_kept
  late_at w (done c) = (
    let t = push_kept w.thread c in
        record w {
          thread = record t {
            co = set_co t.co c (record (t.co c) { fiber = running; is_native_thread = true });
          };
        },
    done true,
  )
  late_at w (throw e) = (w, done false)
  late_at w (crash x) = (w, crash x)

  unfoldable pub late_init : Bool → Request → World → ℕ → World × Run (Err D) Bool
  unfolding create late_at
  late_init closure_ok q w c =
      if not closure_ok then (w, done false) else (let (w', made) = create q w c in late_at w' made)

-- The end of a task that an error ends: the fields of the coroutine that it writes. Field 1 of the object is
-- the one in which `coroutine_new` keeps the call stack.
pub record Task (D : Type 0) : Type 0 where
  pub thrown_error : Option (Value D)
  pub field_stack : Option ℕ
  pub field_thrown_error : Option ℕ
  pub has_error : Bool
  pub error_handler : Option ℕ

module _ {D : Type 0} where
  unfoldable pub task_failed : Value D → Task D → Run (Err D) (Task D)
  unfolding get_object_ptr
  task_failed error t = elim (get_object_ptr error) [
    | done ptr ↦ done (record t {
      thrown_error = some error;
      field_stack = ptr;
      has_error = true;
      error_handler = none;
    })
    | throw e ↦ throw e
    | crash x ↦ crash x
  ]
