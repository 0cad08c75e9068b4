-- ===== src/CallStack/Laws.antt =====
-- Protected calls of src/interpreter.c, and an overflow of the call stack.
use fluffy_vm.Prelude.{
  ℕ, suc, ◌≤◌, ◌<◌, ◌≡◌, ◌≢◌, refl, sym, ap, ◌∙◌, arith, Bool, true, false, not, ◌&&◌, List, [],
  ◌∷◌, ◌++◌, Option, some, none, All, length, ◌==◌, ==_iff, ◌⊎◌,
}
use fluffy_vm.Prelude.Run.{Run, done, throw, crash, deadlock}
use fluffy_vm.Value.Error.{Err, static, out_of_memory, stack_overflow}
use fluffy_vm.Interpreter.Ops.{call_stack_size}
use fluffy_vm.CallStack.{
  CallStack, top, Jump, jump, Memory, lock, unlock, internal_epilog, function_epilog, failed,
  entered, function_prolog, or_error, interpreter_error, same, unwind, recover, caught, xpcall,
}

-- The current call state is the one on top, and the lock is free.
pub record IsSettled (c : CallStack) : Type 0 where
  pub settled : c.current ≡ top c.states
  pub free : c.locked ≡ false

==_refl : (n : ℕ) → (n == n) ≡ true
==_refl n = (==_iff n n).1 refl

same_self : (n : ℕ) → same (some n) (some n) ≡ true
unfolding same
same_self n = ==_refl n

abbrev tail : List ℕ → List ℕ
tail [] = []
tail (s ∷ ss) = ss

module _ {D : Type 0} where
  -- Popping down to the caller's call state.
  unwind_lem :
      (a : ℕ) (above below : List ℕ)
      → All (λ s. s ≢ a) above
      → unwind {D = D} (some a) (above ++ a ∷ below) (top (above ++ a ∷ below))
        ≡ done (a ∷ below, some a)
  unfolding unwind
  unwind_lem a [] below h = ground arith
  unwind_lem a (s ∷ above) below h = ground (arith, h.0, unwind_lem a above below h.1)

  -- After an error, whatever call states it left above the caller's.
  recover_lem :
      (before c : CallStack) (a : ℕ) (above below : List ℕ)
      → IsSettled before
      → before.states ≡ a ∷ below
      → IsSettled c
      → c.states ≡ above ++ a ∷ below
      → All (λ s. s ≢ a) above
      → recover {D = D} before c ≡ done (before, false)
  unfolding recover lock unlock
  recover_lem before c a above below wb eb wc ec h =
      let caller : before.current ≡ some a = wb.settled ∙ ap top eb in
      let at : c.current ≡ top (above ++ a ∷ below) = wc.settled ∙ ap top ec in
      let e : unwind {D = D} before.current c.states c.current
          ≡ done (before.states, before.current) =
        rw (caller, ec, at, eb) (unwind_lem a above below h) in
      rw (wc.free, e) (ap (λ (b : Bool). done (record before { locked = b }, false)) (sym wb.free))

  -- A protected call whose body raises an error. `before` is the coroutine's call stack, with the caller's state
  -- `a` on top. When the body jumps to the handler of the call, and the call's own handler returns with the
  -- lock free and any call states left above the caller's, the call returns false; and the call stack,
  -- the current call state, the error handler and the lock are what they were before.
  pub xpcall_lem :
      (fuel env : ℕ) (body handler : CallStack → Run (Jump D) CallStack) (before c c' : CallStack)
      (a : ℕ) (above below : List ℕ) (e : Err D)
      → IsSettled before
      → before.states ≡ a ∷ below
      → body (record before { handler = some env }) ≡ throw (jump e c)
      → c.handler ≡ some env
      → handler c ≡ done c'
      → IsSettled c'
      → c'.states ≡ above ++ a ∷ below
      → All (λ s. s ≢ a) above
      → xpcall (suc fuel) env body handler before ≡ done (before, false)
  unfolding xpcall caught
  xpcall_lem fuel env body handler before c c' a above below e wb eb raised at ended wc ec h =
      let here : same c.handler (some env) ≡ true =
        ap (λ (k : Option ℕ). same k (some env)) at ∙ same_self env in
      rw (raised, here, ended) (recover_lem before c' a above below wb eb wc ec h)

  -- `coroutine_function_prolog` on a call stack that is settled. With room and memory the new state is on top and
  -- current, and the epilog takes it off again. Without memory the call stack is as it was. A full
  -- call stack loses the state of the caller, and its lock stays taken.
  pub function_prolog_lem :
      (is_native : Bool) (m : Memory) (c : CallStack)
      → IsSettled c
      → (m.object ≡ none
          → function_prolog {D = D} is_native m c ≡ throw (jump (static out_of_memory) c))
        × ((object : ℕ)
            → m.object ≡ some object
            → (length c.states < call_stack_size
                → (not is_native && not m.registers_ok) ≡ false
                → m.stack_ok ≡ true
                → (c' : CallStack) × (function_prolog {D = D} is_native m c ≡ done c')
                  × (c'.states ≡ object ∷ c.states)
                  × IsSettled c'
                  × (function_epilog {D = D} c' ≡ done c))
              × (length c.states < call_stack_size
                  → ((not is_native && not m.registers_ok) ≡ true) ⊎ (m.stack_ok ≡ false)
                  → function_prolog {D = D} is_native m c ≡ throw (jump (static out_of_memory) c))
              × (call_stack_size ≤ length c.states
                  → function_prolog {D = D} is_native m c
                    ≡ throw (
                        jump (static stack_overflow) (record c {
                          states = tail c.states;
                          current = top (tail c.states);
                          locked = true;
                        }))))
  unfolding function_prolog function_epilog failed internal_epilog entered lock unlock
  function_prolog_lem is_native m c w = (
    λ e. rw e refl,
    λ object e. (
      λ room registers stack. (
        record c { states = object ∷ c.states; current = some object; locked = false },
        ground arith,
        refl,
        record { settled = refl; free = refl },
        ground (arith, w.free, w.settled),
      ),
      λ room short. ground arith,
      λ full. ground arith,
    ),
  )

  -- A function that is called under a protected call, with memory for its call state and no room on the call stack, and
  -- a handler that does nothing: its error is raised to the protected call, which waits for ever for the lock that the failed prolog has kept.
  pub overflow-deadlock :
      (fuel env object : ℕ) (is_native : Bool) (m : Memory) (c : CallStack)
      → IsSettled c
      → m.object ≡ some object
      → call_stack_size ≤ length c.states
      → xpcall {D = D}
          (suc fuel)
          env
          (λ s. or_error (function_prolog is_native m s))
          (λ s. done s)
          c
        ≡ crash deadlock
  unfolding xpcall caught recover lock or_error interpreter_error
  overflow-deadlock fuel env object is_native m c w e full =
      let inner : CallStack = record c { handler = some env } in
      let kept =
        (function_prolog_lem is_native m inner (record { settled = w.settled; free = w.free })).1
          object e in
      rw (kept.2 full, same_self env) refl

  -- A call state that a prolog has put on the stack is what the epilog takes off: with nothing else between
  -- them, the call stack, the current state, the error handler and the lock are as before.
  pub function_prolog-function_epilog :
      (is_native : Bool) (m : Memory) (c : CallStack) (object : ℕ)
      → IsSettled c
      → m.object ≡ some object
      → length c.states < call_stack_size
      → (not is_native && not m.registers_ok) ≡ false
      → m.stack_ok ≡ true
      → (c' : CallStack) × (function_prolog {D = D} is_native m c ≡ done c')
        × (c'.states ≡ object ∷ c.states)
        × IsSettled c'
        × (function_epilog {D = D} c' ≡ done c)
  function_prolog-function_epilog is_native m c object w e room registers stack =
      ((function_prolog_lem is_native m c w).1 object e).0 room registers stack
