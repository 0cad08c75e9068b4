-- ===== src/Collections/Queue/Laws.antt =====
-- The queue of src/collections/queue.c against a list with a bound.
use fluffy_vm.Prelude.{
  ℕ, ◌+◌, ◌-◌, ◌≤◌, ◌<◌, ◌≡◌, refl, ap, ◌∙◌, arith, true, false, List, [], ◌∷◌, ◌++◌, none, some,
  ltb, leb, length, length-append, Bool-cases, inl, inr,
}
use fluffy_vm.Prelude.Run.{done, crash, null_dereference}
use fluffy_vm.Collections.Queue.{
  Deque, Queue, queue_new, queue_is_full, append, take_node, queue_is_empty,
  queue_enqueue_nonblocking, queue_remove_nonblocking, queue_enqueue, queue_remove, entry, woken,
  QueueCall, try_enqueue, try_remove, apply, run_calls, answer, answers,
}

module _ {A L : Type 0} (deque : Deque A L) (contents : L → List A)
    (new_empty : contents deque.list_new ≡ [])
    (rpush_last : (l : L) (x : A) → contents (deque.list_rpush l x) ≡ contents l ++ x ∷ [])
    (first_none : (l : L) → contents l ≡ [] → deque.take_first l ≡ none)
    (first_some : (l : L) (x : A) (xs : List A)
      → contents l ≡ x ∷ xs
      → (l' : L) × (deque.take_first l ≡ some (x, l')) × (contents l' ≡ xs)) where
  -- The queue holds these items, counts them, and has this bound.
  pub record Represents (size : ℕ) (q : Queue L) (xs : List A) : Type 0 where
    pub holds : contents q.queue ≡ xs
    pub counted : q.items_in_queue ≡ length xs
    pub bound : q.queue_size ≡ size
    pub within : length xs ≤ size

  append-Represents :
      (size : ℕ) (q : Queue L) (xs : List A) (x : A)
      → Represents size q xs
      → length xs < size
      → Represents size (append deque q x) (xs ++ x ∷ [])
  unfolding append
  append-Represents size q xs x w room = record {
    holds = rpush_last q.queue x ∙ ap (λ ys. ys ++ x ∷ []) w.holds;
    counted = omega (arith, w.counted, length-append xs (x ∷ []));
    bound = w.bound;
    within = omega (arith, length-append xs (x ∷ []));
  }

  take_node-Represents :
      (size : ℕ) (q : Queue L) (x : A) (xs : List A)
      → Represents size q (x ∷ xs)
      → (q' : Queue L) × (take_node deque q ≡ done (q', x)) × Represents size q' xs
  unfolding take_node
  take_node-Represents size q x xs w =
      let (l, taken, rest) = first_some q.queue x xs w.holds in
      (
        record q { queue = l; items_in_queue = q.items_in_queue - 1 },
        rw taken refl,
        record {
          holds = rest;
          counted = omega (arith, w.counted);
          bound = w.bound;
          within = omega (arith, w.within);
        },
      )

  take_node-empty :
      (size : ℕ) (q : Queue L) → Represents size q [] → take_node deque q ≡ crash null_dereference
  unfolding take_node
  take_node-empty size q w = rw (first_none q.queue w.holds) refl

  apply-Represents :
      (size : ℕ) (q : Queue L) (xs : List A) (op : QueueCall A)
      → Represents size q xs
      → (q' : Queue L) × (apply deque q op ≡ done (q', (answer size xs op).1))
        × Represents size q' (answer size xs op).0
  unfolding apply queue_enqueue_nonblocking queue_remove_nonblocking answer queue_is_full
      queue_is_empty
  apply-Represents size q xs (try_enqueue x) w = elim (Bool-cases (ltb (length xs) size)) [
    | inl room ↦
        let free : leb q.queue_size q.items_in_queue ≡ false =
          rw (w.bound, w.counted) (ground arith) in
        (
          append deque q x,
          rw (free, room) refl,
          rw room (append-Represents size q xs x w (ground arith)),
        )
    | inr full ↦
        let taken : leb q.queue_size q.items_in_queue ≡ true =
          rw (w.bound, w.counted) (ground arith) in
        (q, rw (taken, full) refl, rw full w)
  ]
  apply-Represents size q [] try_remove w =
      let none_in : leb q.items_in_queue 0 ≡ true = rw w.counted refl in (q, rw none_in refl, w)
  apply-Represents size q (x ∷ xs) try_remove w =
      let some_in : leb q.items_in_queue 0 ≡ false = rw w.counted (ground arith) in
      let (q', taken, w') = take_node-Represents size q x xs w in (q', rw (some_in, taken) refl, w')

  run_calls-Represents :
      (size : ℕ) (q : Queue L) (xs : List A) (ops : List (QueueCall A))
      → Represents size q xs
      → run_calls deque q ops ≡ done (answers size xs ops)
  unfolding run_calls answers
  run_calls-Represents size q xs [] w = refl
  run_calls-Represents size q xs (op ∷ ops) w =
      let (q', here, w') = apply-Represents size q xs op w in
      rw (here, run_calls-Represents size q' (answer size xs op).0 ops w') refl

  -- The calls that do not wait: from `queue_new` on, any sequence of them gives the answers of a list that takes
  -- items at its end, gives them from its front, and holds at most `size`. No call crashes.
  pub run_refines :
      (size : ℕ) (ops : List (QueueCall A))
      → run_calls deque (queue_new deque size) ops ≡ done (answers size [] ops)
  unfolding queue_new
  run_refines size ops =
      run_calls-Represents size (queue_new deque size) [] ops
        (record { holds = new_empty; counted = refl; bound = refl; within = omega arith })

  -- A call that waits does not test again when it wakes. A producer waits at a full queue of positive size; a
  -- consumer takes an item, and another producer fills the place before the first has the lock again: it
  -- appends all the same, and the queue holds one item more than its size. A consumer waits at an empty
  -- queue; a producer puts an item in, and another consumer takes it before the first has the lock again:
  -- it reads through the node that is not there.
  pub late_wake-overfills :
      (size : ℕ) (q e : Queue L) (x y z : A) (xs : List A)
      → Represents size q (x ∷ xs)
      → length (x ∷ xs) ≡ size
      → Represents size e []
      → ((q1 q2 q3 : Queue L) × (queue_enqueue deque entry q z ≡ none)
          × (queue_remove deque entry q ≡ done (some (q1, x)))
          × (queue_enqueue deque entry q1 y ≡ some q2)
          × (queue_is_full deque q2 ≡ true)
          × (queue_enqueue deque woken q2 z ≡ some q3)
          × (q3.items_in_queue ≡ size + 1))
        × ((e1 e2 : Queue L) × (queue_remove deque entry e ≡ done none)
            × (queue_enqueue deque entry e y ≡ some e1)
            × (queue_remove deque entry e1 ≡ done (some (e2, y)))
            × (queue_remove deque woken e2 ≡ crash null_dereference))
  unfolding queue_enqueue queue_remove queue_is_full queue_is_empty append
  late_wake-overfills size q e x y z xs w full v =
      let (q1, taken, w1) = take_node-Represents size q x xs w in
      let waits : leb q.queue_size q.items_in_queue ≡ true =
        rw (w.bound, w.counted) (ground arith) in
      let some_in : leb q.items_in_queue 0 ≡ false = rw w.counted (ground arith) in
      let free : leb q1.queue_size q1.items_in_queue ≡ false =
        rw (w1.bound, w1.counted) (ground arith) in
      let room : length {A = A} [] < size = omega (arith, full) in
      let e1 = append deque e y in
      let (e2, taken_y, v2) =
        take_node-Represents size e1 y [] (append-Represents size e [] y v room) in
      let empty : leb e.items_in_queue 0 ≡ true = rw v.counted refl in
      let open_e : leb e.queue_size e.items_in_queue ≡ false =
        rw (v.bound, v.counted) (ground (arith, room)) in
      let one_in : leb e1.items_in_queue 0 ≡ false = rw v.counted refl in
      (
        (
          q1,
          append deque q1 y,
          append deque (append deque q1 y) z,
          rw waits refl,
          rw (some_in, taken) refl,
          rw free refl,
          rw (w1.bound, w1.counted) (ground arith),
          refl,
          rw w1.counted (omega arith),
        ),
        (
          e1,
          e2,
          rw empty refl,
          rw open_e refl,
          rw (one_in, taken_y) refl,
          rw (take_node-empty size e2 v2) refl,
        ),
      )
