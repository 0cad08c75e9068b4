-- ===== src/Coroutine/New/Laws.antt =====
-- What `coroutine_new` of src/coroutine.c leaves on the call stacks, and where its first call state goes.
use fluffy_vm.Prelude.{
  ℕ, ◌≤◌, ◌<◌, ◌≡◌, ◌≢◌, refl, ap, ◌∙◌, arith, true, false, not, ◌&&◌, List, [], ◌∷◌, some, length,
  leb, ◌==◌, ◌⊎◌, ==_refl,
}
use fluffy_vm.Prelude.Run.{done, throw}
use fluffy_vm.Value.Error.{static, out_of_memory}
use fluffy_vm.Interpreter.Ops.{call_stack_size}
use fluffy_vm.CallStack.{function_prolog}
use fluffy_vm.CallStack.Laws.{IsSettled, function_prolog_lem}
use fluffy_vm.Coroutine.{
  Thread, new_co, set_co, max_coroutine_nest, push_current, pop_current, resume, fiber_resume,
}
use fluffy_vm.Coroutine.New.{World, Request, begun, empty_stack, set_stack, push_kept, create}

push_kept-room :
    (t : Thread) (c : ℕ)
    → length t.nest < max_coroutine_nest
    → push_kept t c ≡ record t { nest = c ∷ t.nest }
unfolding push_kept push_current
push_kept-room t c room = ground arith

push_kept-full : (t : Thread) (c : ℕ) → max_coroutine_nest ≤ length t.nest → push_kept t c ≡ t
unfolding push_kept push_current
push_kept-full t c full = ground arith

abbrev entered_world : World → ℕ → World
entered_world w c = record {
  thread = record w.thread { nest = c ∷ w.thread.nest };
  stacks = set_stack w.stacks c empty_stack;
}

empty-IsSettled : IsSettled empty_stack
empty-IsSettled = record { settled = refl; free = refl }

resumable :
    (t : Thread) (c : ℕ)
    → t.co c ≡ new_co
    → length t.nest < max_coroutine_nest
    → (resume t c).1 ≡ done tt
unfolding resume push_current fiber_resume
resumable t c new room =
    let open_ : leb max_coroutine_nest (length t.nest) ≡ false = ground arith in
    rw (open_, new) refl

module _ {D : Type 0} where
  create-room :
      (q : Request) (w : World) (c : ℕ)
      → q.object_ok ≡ true
      → q.stack_ok ≡ true
      → length w.thread.nest < max_coroutine_nest
      → create {D = D} q w c
        ≡ begun (entered_world w c) c c (function_prolog q.is_native q.memory empty_stack)
  unfolding create
  create-room q w c ok ok' room = rw (ok, ok', push_kept-room w.thread c room, ==_refl c) refl

  -- `coroutine_new` while the thread executes fewer than FLUFFYVM_MAX_COROUTINE_NEST coroutines, with memory for the two
  -- objects: the new coroutine has one call state, can be resumed, and nothing else has changed; without
  -- memory for the call state, no other coroutine's call stack has changed and neither has the thread.
  pub create_lem :
      (q : Request) (w : World) (c object : ℕ)
      → q.object_ok ≡ true
      → q.stack_ok ≡ true
      → q.memory.object ≡ some object
      → length w.thread.nest < max_coroutine_nest
      → ((not q.is_native && not q.memory.registers_ok) ≡ false
          → q.memory.stack_ok ≡ true
          → (w' : World) × (create {D = D} q w c ≡ (w', done c))
            × (w'.thread.nest ≡ w.thread.nest)
            × ((w'.stacks c).states ≡ object ∷ [])
            × IsSettled (w'.stacks c)
            × ((d : ℕ) → d ≢ c → (w'.stacks d ≡ w.stacks d) × (w'.thread.co d ≡ w.thread.co d))
            × ((resume w'.thread c).1 ≡ done tt))
        × (((not q.is_native && not q.memory.registers_ok) ≡ true) ⊎ (q.memory.stack_ok ≡ false)
            → (w' : World) × (create {D = D} q w c ≡ (w', throw (static out_of_memory)))
              × (w'.thread ≡ w.thread)
              × ((d : ℕ) → d ≢ c → w'.stacks d ≡ w.stacks d))
  unfolding begun pop_current
  create_lem q w c object ok ok' at room =
      let begins = create-room q w c ok ok' room in
      let first =
        (function_prolog_lem q.is_native q.memory empty_stack empty-IsSettled).1 object at in
      (
        λ registers stack.
            let (s, made, holds, settled, _) = first.0 (omega arith) registers stack in
            let w' : World = record {
              thread = record w.thread { co = set_co w.thread.co c new_co };
              stacks = set_stack (set_stack w.stacks c empty_stack) c s;
            } in
            (
              w',
              begins ∙ ap (begun (entered_world w c) c c) made,
              refl,
              rw (==_refl c) holds,
              rw (==_refl c) settled,
              λ d other. (ground (arith, other), ground (arith, other)),
              resumable w'.thread c (rw (==_refl c) refl) room,
            ),
        λ short.
            let fails = first.1 (omega arith) short in
            (
              record {
                thread = w.thread;
                stacks = set_stack (set_stack w.stacks c empty_stack) c empty_stack;
              },
              begins ∙ ap (begun (entered_world w c) c c) fails,
              refl,
              λ d other. ground (arith, other),
            ),
      )

  create-full :
      (q : Request) (w : World) (c d : ℕ) (ds : List ℕ)
      → q.object_ok ≡ true
      → q.stack_ok ≡ true
      → w.thread.nest ≡ d ∷ ds
      → d ≢ c
      → max_coroutine_nest ≤ length w.thread.nest
      → create {D = D} q w c
        ≡ begun
            (record w { stacks = set_stack w.stacks c empty_stack })
            c
            d
            (function_prolog q.is_native q.memory (w.stacks d))
  unfolding create
  create-full q w c d ds ok ok' nest differ full =
      let other : (d == c) ≡ false = ground (arith, differ) in
      rw (ok, ok', push_kept-full w.thread c full, nest, other) refl

  -- `coroutine_new` by a thread that executes FLUFFYVM_MAX_COROUTINE_NEST coroutines, `d` the innermost: it succeeds, but the
  -- first call state goes on the call stack of `d`, the new coroutine has none, and the thread no longer
  -- counts `d` among those it executes.
  pub create_full_lem :
      (q : Request) (w : World) (c d object : ℕ) (ds : List ℕ)
      → q.object_ok ≡ true
      → q.stack_ok ≡ true
      → q.memory.object ≡ some object
      → (not q.is_native && not q.memory.registers_ok) ≡ false
      → q.memory.stack_ok ≡ true
      → w.thread.nest ≡ d ∷ ds
      → d ≢ c
      → max_coroutine_nest ≤ length w.thread.nest
      → IsSettled (w.stacks d)
      → length (w.stacks d).states < call_stack_size
      → (w' : World) × (create {D = D} q w c ≡ (w', done c))
        × ((w'.stacks d).states ≡ object ∷ (w.stacks d).states)
        × ((w'.stacks c).states ≡ [])
        × (w'.thread.nest ≡ ds)
  unfolding begun pop_current
  create_full_lem q w c d object ds ok ok' at registers stack nest differ full settled room =
      let (s, made, holds, _, _) =
        ((function_prolog_lem q.is_native q.memory (w.stacks d) settled).1 object at).0 room
          registers stack in
      let w0 : World = record w { stacks = set_stack w.stacks c empty_stack } in
      let other : (c == d) ≡ false = ground (arith, differ) in
      (
        record {
          thread = pop_current (record w.thread { co = set_co w.thread.co c new_co });
          stacks = set_stack w0.stacks d s;
        },
        create-full q w c d ds ok ok' nest differ full ∙ ap (begun w0 c d) made,
        rw (==_refl d) holds,
        rw (other, ==_refl c) refl,
        rw nest refl,
      )
