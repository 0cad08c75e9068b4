-- ===== src/Stack/Lifo.antt =====
-- What src/stack.h promises: a last-in first-out stack of at most `cap` objects, top first.
use fluffy_vm.Prelude.{ℕ, List, [], ◌∷◌, Option, none, some, leb, if◌then◌else◌, length}
use fluffy_vm.Prelude.Run.{Run, done, throw}
use fluffy_vm.Value.Error.{Err, static, stack_overflow, stack_underflow}
use fluffy_vm.Stack.Api.{Op, call_push, call_pop, call_pop_discard, call_peek}

module _ {A D : Type 0} (cap : ℕ) where
  -- For each call, the objects that are left and the reply.
  unfoldable pub step : List A → Op A → List A × Run (Err D) (Option A)
  step xs (call_push a) =
      if leb cap (length xs) then (xs, throw (static stack_overflow)) else (a ∷ xs, done none)
  step [] call_pop = ([], throw (static stack_underflow))
  step (x ∷ xs) call_pop = (xs, done (some x))
  step [] call_pop_discard = ([], throw (static stack_underflow))
  step (x ∷ xs) call_pop_discard = (xs, done none)
  step [] call_peek = ([], done none)
  step (x ∷ xs) call_peek = (x ∷ xs, done (some x))

  unfoldable pub run : List A → List (Op A) → List (Run (Err D) (Option A))
  run xs [] = []
  run xs (op ∷ ops) = let (xs', reply) = step xs op in reply ∷ run xs' ops
