-- ===== src/Util/Foreach.antt =====
-- src/util/functional/foreach.c and src/util/functional/functional.c: a consumer that is given each value of a supplier, by one thread or
-- by several. A pointer is a number, and NULL is 0.
pub mod Laws
pub mod Parallel
use mathlib.Core.List.{reverse}
use fluffy_vm.Prelude.{
  ℕ, zero, suc, ◌+◌, ◌≡◌, Bool, true, false, List, [], ◌∷◌, ◌++◌, Option, none, some, ◌==◌,
  if◌then◌else◌, replicate,
}

-- `foreach_status_t`, less FOREACH_INVALID, which is never returned.
pub data ForeachStatus : Type 0 where
  foreach_ok foreach_failed : ForeachStatus

-- `functional_from_list_iterator`, on the nodes that the iterator has left.
unfoldable pub from_list_iterator : List ℕ → ℕ × List ℕ
from_list_iterator [] = (0, [])
from_list_iterator (v ∷ vs) = (v, vs)

module _ {S C : Type 0} (supplier : S → ℕ × S) (consumer : C → ℕ → C × Bool) where
  -- `foreach_do`, for as many rounds as there is fuel, with what the consumer keeps.
  unfoldable pub foreach_do : ℕ → S → C → Option (C × ForeachStatus)
  foreach_do zero s c = none
  foreach_do (suc fuel) s c =
      let (tmp, s') = supplier s in
      let (c', success) = consumer c tmp in
      let rest = foreach_do fuel s' c' in
      if tmp == 0 then some (c, foreach_ok) else if success then rest else some (c', foreach_failed)

-- `list_direction_t`
pub data Direction : Type 0 where
  list_head list_tail : Direction

-- The nodes in the order of `list_iterator_new`.
abbrev pub nodes : Direction → List ℕ → List ℕ
nodes list_head vs = vs
nodes list_tail vs = reverse vs

module _ {C : Type 0} (consumer : C → ℕ → C × Bool) where
  unfoldable pub foreach_do_list_direction : ℕ → List ℕ → Direction → C → Option (C × ForeachStatus)
  unfolding foreach_do from_list_iterator
  foreach_do_list_direction fuel vs dir c =
      foreach_do from_list_iterator consumer fuel (nodes dir vs) c

  unfoldable pub foreach_do_list : ℕ → List ℕ → C → Option (C × ForeachStatus)
  unfolding foreach_do from_list_iterator
  foreach_do_list fuel vs c = foreach_do from_list_iterator consumer fuel vs c

-- Where a thread of `foreach_parallel_do` is: before the supplier, with a value, after the consumer took it, past the loop,
-- and at its end.
pub data Phase : Type 0 where
  asking : Phase
  holding : ℕ → Phase
  looking leaving stopped : Phase

-- What the threads share: the values that the supplier has left, those that were given to the consumer, `mustStop` and
-- `foreachStatus`. The supplier's lock is held within one step.
pub record Work : Type 0 where
  pub left : List ℕ
  pub consumed : List ℕ
  pub workers : List Phase
  pub must_stop : Bool
  pub failed : Bool

-- `threads` threads, none of which could not be started.
unfoldable pub parallel_start : List ℕ → ℕ → Work
parallel_start items threads = record {
  left = items;
  consumed = [];
  workers = replicate threads asking;
  must_stop = false;
  failed = false;
}

-- One step of one thread; the consumer answers as it likes for each value.
pub data WorkStep (accepts : ℕ → Bool) (w : Work) : Work → Type 0 where
  takes :
      (pre post : List Phase) (x : ℕ) (xs : List ℕ) (u : Work)
      → w.workers ≡ pre ++ asking ∷ post
      → w.left ≡ x ∷ xs
      → u ≡ record w { left = xs; workers = pre ++ holding x ∷ post }
      → WorkStep accepts w u
  finds_none :
      (pre post : List Phase) (u : Work)
      → w.workers ≡ pre ++ asking ∷ post
      → w.left ≡ []
      → u ≡ record w { workers = pre ++ leaving ∷ post }
      → WorkStep accepts w u
  accepted :
      (pre post : List Phase) (x : ℕ) (u : Work)
      → w.workers ≡ pre ++ holding x ∷ post
      → accepts x ≡ true
      → u ≡ record w { consumed = x ∷ w.consumed; workers = pre ++ looking ∷ post }
      → WorkStep accepts w u
  refused :
      (pre post : List Phase) (x : ℕ) (u : Work)
      → w.workers ≡ pre ++ holding x ∷ post
      → accepts x ≡ false
      → u ≡ record w { consumed = x ∷ w.consumed; workers = pre ++ leaving ∷ post; failed = true }
      → WorkStep accepts w u
  continues :
      (pre post : List Phase) (u : Work)
      → w.workers ≡ pre ++ looking ∷ post
      → w.must_stop ≡ false
      → u ≡ record w { workers = pre ++ asking ∷ post }
      → WorkStep accepts w u
  breaks :
      (pre post : List Phase) (u : Work)
      → w.workers ≡ pre ++ looking ∷ post
      → w.must_stop ≡ true
      → u ≡ record w { workers = pre ++ leaving ∷ post }
      → WorkStep accepts w u
  leaves :
      (pre post : List Phase) (u : Work)
      → w.workers ≡ pre ++ leaving ∷ post
      → u ≡ record w { workers = pre ++ stopped ∷ post; must_stop = true }
      → WorkStep accepts w u

-- What the threads can come to.
pub data Working (accepts : ℕ → Bool) (w : Work) : Work → Type 0 where
  begins : (u : Work) → u ≡ w → Working accepts w u
  goes_on : (v u : Work) → Working accepts w v → WorkStep accepts v u → Working accepts w u

-- The result, once all threads are joined.
unfoldable pub status_of : Work → ForeachStatus
status_of w = if w.failed then foreach_failed else foreach_ok
