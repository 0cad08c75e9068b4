-- ===== src/Collections/Queue.antt =====
-- src/collections/queue.c: a bounded queue between threads. The list that it keeps its items in is a library's
-- (a git submodule): `Deque` is what the queue calls of it. Each operation holds the lock from end to end,
-- but for the waits: a blocking call is two steps, with other threads' steps between them.
pub mod Laws
use fluffy_vm.Prelude.{
  ℕ, ◌+◌, ◌-◌, Bool, true, false, List, [], ◌∷◌, ◌++◌, Option, none, some, ltb, leb, if◌then◌else◌,
  length,
}
use fluffy_vm.Prelude.Run.{Run, done, crash, null_dereference, ◌>>=◌}

-- `list_new`, `list_rpush`, and `list_at` with `list_remove` at position 0, NULL when there is no node.
pub record Deque (A L : Type 0) : Type 0 where
  pub list_new : L
  pub list_rpush : L → A → L
  pub take_first : L → Option (A × L)

pub record Queue (L : Type 0) : Type 0 where
  pub queue : L
  pub items_in_queue : ℕ
  pub queue_size : ℕ

-- Where a blocking call has the lock: before its test, or behind `pthread_cond_wait`.
pub data Moment : Type 0 where
  entry woken : Moment

module _ {A L : Type 0} (deque : Deque A L) where
  unfoldable pub queue_new : ℕ → Queue L
  queue_new size = record { queue = deque.list_new; items_in_queue = 0; queue_size = size }

  unfoldable pub queue_is_full : Queue L → Bool
  queue_is_full q = leb q.queue_size q.items_in_queue

  unfoldable pub queue_is_empty : Queue L → Bool
  queue_is_empty q = leb q.items_in_queue 0

  -- What follows the test, or the wait, of an enqueue.
  unfoldable pub append : Queue L → A → Queue L
  append q x = record q {
    queue = deque.list_rpush q.queue x;
    items_in_queue = q.items_in_queue + 1;
  }

  first_node : Queue L → Option (A × L) → Run (Unit {0}) (Queue L × A)
  first_node q none = crash null_dereference
  first_node q (some (x, l)) =
      done (record q { queue = l; items_in_queue = q.items_in_queue - 1 }, x)

  -- What follows the test, or the wait, of a removal: the node is not tested.
  unfoldable pub take_node : Queue L → Run (Unit {0}) (Queue L × A)
  unfolding first_node
  take_node q = first_node q (deque.take_first q.queue)

  unfoldable pub queue_enqueue_nonblocking : Queue L → A → Queue L × Bool
  unfolding queue_is_full append
  queue_enqueue_nonblocking q x = if queue_is_full q then (q, false) else (append q x, true)

  unfoldable pub queue_remove_nonblocking : Queue L → Run (Unit {0}) (Queue L × Option A)
  unfolding queue_is_empty take_node
  queue_remove_nonblocking q =
      if queue_is_empty q then done (q, none) else do (q', x) ← take_node q; done (q', some x)

  -- `queue_enqueue` from where it has the lock, which it gets on its entry and again after its wait. The queue with the
  -- item, or none when it waits.
  unfoldable pub queue_enqueue : Moment → Queue L → A → Option (Queue L)
  unfolding queue_is_full append
  queue_enqueue entry q x = if queue_is_full q then none else some (append q x)
  queue_enqueue woken q x = some (append q x)

  -- `queue_remove`, in the same way.
  unfoldable pub queue_remove : Moment → Queue L → Run (Unit {0}) (Option (Queue L × A))
  unfolding queue_is_empty take_node
  queue_remove entry q = if queue_is_empty q then done none else do r ← take_node q; done (some r)
  queue_remove woken q = do r ← take_node q; done (some r)

-- What a caller asks for without waiting, and the answers.
pub data QueueCall (A : Type 0) : Type 0 where
  try_enqueue : A → QueueCall A
  try_remove : QueueCall A

pub data Answer (A : Type 0) : Type 0 where
  enqueued : Bool → Answer A
  removed : Option A → Answer A

module _ {A L : Type 0} (deque : Deque A L) where
  unfoldable pub apply : Queue L → QueueCall A → Run (Unit {0}) (Queue L × Answer A)
  unfolding queue_enqueue_nonblocking queue_remove_nonblocking
  apply q (try_enqueue x) =
      let (q', ok) = queue_enqueue_nonblocking deque q x in done (q', enqueued ok)
  apply q try_remove = do (q', r) ← queue_remove_nonblocking deque q; done (q', removed r)

  unfoldable pub run_calls : Queue L → List (QueueCall A) → Run (Unit {0}) (List (Answer A))
  unfolding apply
  run_calls q [] = done []
  run_calls q (op ∷ ops) = do (q', a) ← apply q op; rest ← run_calls q' ops; done (a ∷ rest)

-- The abstract queue: a list with a bound, written at its end and read at its front.
module _ {A : Type 0} where
  unfoldable pub answer : ℕ → List A → QueueCall A → List A × Answer A
  answer size xs (try_enqueue x) =
      if ltb (length xs) size then (xs ++ x ∷ [], enqueued true) else (xs, enqueued false)
  answer size [] try_remove = ([], removed none)
  answer size (x ∷ xs) try_remove = (xs, removed (some x))

  unfoldable pub answers : ℕ → List A → List (QueueCall A) → List (Answer A)
  unfolding answer
  answers size xs [] = []
  answers size xs (op ∷ ops) = let (xs', a) = answer size xs op in a ∷ answers size xs' ops
