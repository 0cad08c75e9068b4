-- ===== src/Tests/Queues.antt =====
-- The queue over a list, as it is, for its deque.
use fluffy_vm.Prelude.{ℕ, ◌+◌, ◌≡◌, refl, arith, true, List, [], ◌∷◌, ◌++◌, Option, none, some}
use fluffy_vm.Prelude.Run.{done, crash, null_dereference}
use fluffy_vm.Collections.Queue.{
  Deque, Queue, queue_new, queue_is_full, queue_enqueue, queue_remove, entry, woken, QueueCall,
  try_enqueue, try_remove, run_calls, answers,
}
use fluffy_vm.Collections.Queue.Laws.{Represents, run_refines, late_wake-overfills}

first_of : List ℕ → Option (ℕ × List ℕ)
first_of [] = none
first_of (x ∷ xs) = some (x, xs)

abbrev deque : Deque ℕ (List ℕ)
deque = record { list_new = []; list_rpush = λ l x. l ++ x ∷ []; take_first = first_of }

abbrev as_it_is : List ℕ → List ℕ
as_it_is l = l

first_of_none : (l : List ℕ) → l ≡ [] → first_of l ≡ none
unfolding first_of
first_of_none l e = rw e refl

first_of_some :
    (l : List ℕ) (x : ℕ) (xs : List ℕ)
    → l ≡ x ∷ xs
    → (l' : List ℕ) × (first_of l ≡ some (x, l')) × (l' ≡ xs)
unfolding first_of
first_of_some l x xs e = (xs, rw e refl, refl)

abbrev ops : List (QueueCall ℕ)
ops =
    try_remove
    ∷ try_enqueue 4
    ∷ try_enqueue 5
    ∷ try_enqueue 6
    ∷ try_remove
    ∷ try_enqueue 7
    ∷ try_remove
    ∷ []

run_refines_example : run_calls deque (queue_new deque 2) ops ≡ done (answers 2 [] ops)
run_refines_example =
    run_refines deque as_it_is refl (λ l x. refl) first_of_none first_of_some 2 ops

abbrev full_queue : Queue (List ℕ)
full_queue = record { queue = 4 ∷ 5 ∷ []; items_in_queue = 2; queue_size = 2 }

full_queue-Represents :
    Represents deque as_it_is refl
      (λ l x. refl)
      first_of_none
      first_of_some
      2
      full_queue
      (4 ∷ 5 ∷ [])
full_queue-Represents = record { holds = refl; counted = refl; bound = refl; within = omega arith }

abbrev empty_queue : Queue (List ℕ)
empty_queue = record { queue = []; items_in_queue = 0; queue_size = 2 }

empty_queue-Represents :
    Represents deque as_it_is refl (λ l x. refl) first_of_none first_of_some 2 empty_queue []
empty_queue-Represents = record { holds = refl; counted = refl; bound = refl; within = omega arith }

late_wake-overfills_example :
    ((q1 q2 q3 : Queue (List ℕ)) × (queue_enqueue deque entry full_queue 6 ≡ none)
      × (queue_remove deque entry full_queue ≡ done (some (q1, 4)))
      × (queue_enqueue deque entry q1 7 ≡ some q2)
      × (queue_is_full deque q2 ≡ true)
      × (queue_enqueue deque woken q2 6 ≡ some q3)
      × (q3.items_in_queue ≡ 2 + 1))
    × ((e1 e2 : Queue (List ℕ)) × (queue_remove deque entry empty_queue ≡ done none)
        × (queue_enqueue deque entry empty_queue 7 ≡ some e1)
        × (queue_remove deque entry e1 ≡ done (some (e2, 7)))
        × (queue_remove deque woken e2 ≡ crash null_dereference))
late_wake-overfills_example =
    late_wake-overfills deque as_it_is refl (λ l x. refl) first_of_none first_of_some 2 full_queue
      empty_queue 4 7 6 (5 ∷ []) full_queue-Represents refl empty_queue-Represents
