-- ===== src/Stack.antt =====
-- src/stack.c, src/stack.h: the bounded stack of garbage collected objects. It holds call states for
-- a coroutine, and coroutines for a thread.
pub mod Api
pub mod Lifo
pub mod Laws
use fluffy_vm.Prelude.{
  ℕ, ◌+◌, ◌-◌, Bool, true, false, List, [], ◌∷◌, Option, none, some, ◌==◌, leb, if◌then◌else◌,
  get_or, set, replicate,
}
use fluffy_vm.Prelude.Run.{Run, done, throw, crash, null_dereference}
use fluffy_vm.Stack.Api.{Op, call_push, call_pop, call_pop_discard, call_peek}
use fluffy_vm.Value.Error.{Err, static, stack_overflow, stack_underflow, out_of_memory}

-- `struct fluffyvm_stack`; a slot is an object or NULL.
pub record Stack (A : Type 0) : Type 0 where
  pub sp : ℕ
  pub stack_size : ℕ
  pub slots : List (Option A)

module _ {A D : Type 0} where
  -- The two objects are allocated in turn; the collector fills a new array with NULL.
  unfoldable pub new : (object_ok array_ok : Bool) → ℕ → Run (Err D) (Stack A)
  new object_ok array_ok stack_size =
      if object_ok
      then (if array_ok
          then done (record { sp = 0; stack_size = stack_size; slots = replicate stack_size none })
          else throw (static out_of_memory))
      else throw (static out_of_memory)

  -- `*result` is the data of the object, which is read through the pointer.
  data_of : Option A → Run (Err D) A
  data_of none = crash null_dereference
  data_of (some a) = done a

  popped : Stack A → Run (Err D) A → Run (Err D) (A × Stack A)
  popped s (done a) = done (a, record s { sp = s.sp - 1; slots = set s.slots (s.sp - 1) none })
  popped s (throw e) = throw e
  popped s (crash f) = crash f

  unfoldable pub pop : Stack A → Run (Err D) (A × Stack A)
  unfolding data_of popped
  pop s =
      if s.sp == 0
      then throw (static stack_underflow)
      else popped s (data_of (get_or s.slots (s.sp - 1) none))

  -- `stack_pop` with a NULL result
  unfoldable pub pop_discard : Stack A → Run (Err D) (Stack A)
  pop_discard s =
      if s.sp == 0
      then throw (static stack_underflow)
      else done (record s { sp = s.sp - 1; slots = set s.slots (s.sp - 1) none })

  unfoldable pub push : Stack A → A → Run (Err D) (Stack A)
  push s a =
      if leb s.stack_size s.sp
      then throw (static stack_overflow)
      else done (record s { sp = s.sp + 1; slots = set s.slots s.sp (some a) })

module _ {A : Type 0} where
  -- An empty stack is reported without a message.
  unfoldable pub peek : Stack A → Option A
  peek s = if s.sp == 0 then none else get_or s.slots (s.sp - 1) none

-- A client's calls in order, with what each returns. A call that fails leaves the stack as it is.
module _ {A D : Type 0} where
  abbrev pub state_or : Stack A → Run (Err D) (Stack A) → Stack A
  state_or s (done s') = s'
  state_or s _ = s

  abbrev pub nothing : Run (Err D) (Stack A) → Run (Err D) (Option A)
  nothing (done s) = done none
  nothing (throw e) = throw e
  nothing (crash f) = crash f

  abbrev pub second : Stack A → Run (Err D) (A × Stack A) → Stack A
  second s (done (a, s')) = s'
  second s _ = s

  abbrev pub first : Run (Err D) (A × Stack A) → Run (Err D) (Option A)
  first (done (a, s)) = done (some a)
  first (throw e) = throw e
  first (crash f) = crash f

  unfoldable pub step : Stack A → Op A → Stack A × Run (Err D) (Option A)
  step s (call_push a) = (state_or s (push {D = D} s a), nothing (push s a))
  step s call_pop = (second s (pop {D = D} s), first (pop s))
  step s call_pop_discard = (state_or s (pop_discard {D = D} s), nothing (pop_discard s))
  step s call_peek = (s, done (peek s))

  unfoldable pub run : Stack A → List (Op A) → List (Run (Err D) (Option A))
  run s [] = []
  run s (op ∷ ops) = let (s', reply) = step s op in reply ∷ run s' ops
