-- ===== src/Coroutine.antt =====
-- src/fiber.c and src/coroutine.c: fibers, coroutines, and the stack of coroutines that one thread is
-- executing (src/fluffyvm.c). A switch of contexts hands control over; what the code does before a
-- switch and after it are the steps below. `New` makes a coroutine.
pub mod Steps
pub mod New
use fluffy_vm.Prelude.{
  ℕ, Bool, true, false, not, ◌&&◌, List, [], ◌∷◌, Option, none, some, ◌==◌, leb, if◌then◌else◌,
  length,
}
use fluffy_vm.Prelude.Run.{Run, done, throw, crash, abort}
use fluffy_vm.Value.Error.{
  StaticString, stack_overflow, cannot_resume_dead_coroutine, cannot_resume_running_coroutine,
  cannot_suspend_top_level_coroutine, not_in_coroutine, native_function_disabled_yielding,
}

-- `fiber_state_t`
pub data FiberState : Type 0 where
  running suspended dead : FiberState

-- `fiber_resume` up to the switch: the state before, and whether the exchange succeeded.
unfoldable pub fiber_resume : FiberState → FiberState × FiberState × Bool
fiber_resume suspended = (running, suspended, true)
fiber_resume running = (running, running, false)
fiber_resume dead = (dead, dead, false)

-- `fiber_yield` up to the switch.
unfoldable pub fiber_yield : FiberState → Run StaticString (FiberState × Bool)
fiber_yield running = done (suspended, true)
fiber_yield suspended = done (suspended, false)
fiber_yield dead = crash abort

-- The part of a `struct fluffyvm_coroutine` that resuming and yielding read.
pub record Co : Type 0 where
  pub fiber : FiberState
  pub is_yieldable : Bool
  pub is_native_thread : Bool
  pub has_error : Bool

-- `coroutine_new`; a new fiber is suspended.
abbrev pub new_co : Co
new_co = record {
  fiber = suspended;
  is_yieldable = true;
  is_native_thread = false;
  has_error = false;
}

-- One thread: every coroutine, and the coroutines that it is executing, the innermost first. The
-- stack refuses more than FLUFFYVM_MAX_COROUTINE_NEST.
pub record Thread : Type 0 where
  pub co : ℕ → Co
  pub nest : List ℕ

abbrev pub max_coroutine_nest : ℕ
max_coroutine_nest = 64

abbrev pub set_co : (ℕ → Co) → ℕ → Co → ℕ → Co
set_co f c v d = if d == c then v else f d

-- `fluffyvm_get_executing_coroutine`
abbrev pub executing : List ℕ → Option ℕ
executing [] = none
executing (c ∷ cs) = some c

abbrev tail : List ℕ → List ℕ
tail [] = []
tail (c ∷ cs) = cs

-- `fluffyvm_pop_current_coroutine`: an empty stack fails its assertion, which no caller meets.
unfoldable pub pop_current : Thread → Thread
pop_current t = record t { nest = tail t.nest }

-- `coroutine_resume` once control has come back: `!co->hasError`.
unfoldable pub resume_returns : Thread → ℕ → Thread × Bool
unfolding pop_current
resume_returns t c = (pop_current t, not (t.co c).has_error)

-- The end of a fiber's task (`entryPoint`), after an error that reached the coroutine's own handler
-- or not, with the end of the `coroutine_resume` that control goes back to.
finish_at : Thread → Bool → Option ℕ → Thread
unfolding resume_returns
finish_at t failed none = t
finish_at t failed (some c) =
    (resume_returns
      (record t {
        co = set_co t.co c (record (t.co c) {
          fiber = dead;
          has_error = if failed then true else (t.co c).has_error;
        });
      })
      c).0

unfoldable pub finish : Thread → Bool → Thread
unfolding finish_at
finish t failed = finish_at t failed (executing t.nest)

-- `coroutine_disallow_yield` and `coroutine_allow_yield`
set_yieldable : Thread → Bool → Option ℕ → Thread
set_yieldable t b none = t
set_yieldable t b (some c) = record t { co = set_co t.co c (record (t.co c) { is_yieldable = b }) }

unfoldable pub disallow_yield : Thread → Thread
unfolding set_yieldable
disallow_yield t = set_yieldable t false (executing t.nest)

unfoldable pub allow_yield : Thread → Thread
unfolding set_yieldable
allow_yield t = set_yieldable t true (executing t.nest)

-- `fluffyvm_push_current_coroutine`
unfoldable pub push_current : Thread → ℕ → Run StaticString Thread
push_current t c =
    if leb max_coroutine_nest (length t.nest)
    then throw stack_overflow
    else done (record t { nest = c ∷ t.nest })

-- The switch into the fiber, or the message and the early return.
resumed : ℕ → Thread → FiberState × FiberState × Bool → Thread × Run StaticString (Unit {0})
resumed c t (next, prev, true) =
    (record t { co = set_co t.co c (record (t.co c) { fiber = next }) }, done tt)
resumed c t (next, running, false) = (pop_current t, throw cannot_resume_running_coroutine)
resumed c t (next, dead, false) = (pop_current t, throw cannot_resume_dead_coroutine)
resumed c t (next, suspended, false) = (t, crash abort)

pushed : ℕ → Thread → Run StaticString Thread → Thread × Run StaticString (Unit {0})
unfolding fiber_resume pop_current resumed
pushed c t (done t') = resumed c t' (fiber_resume (t'.co c).fiber)
pushed c t (throw e) = (t, throw e)
pushed c t (crash f) = (t, crash f)

-- `coroutine_resume` until control is in the coroutine, or until its early return.
unfoldable pub resume : Thread → ℕ → Thread × Run StaticString (Unit {0})
unfolding push_current pushed
resume t c = pushed c t (push_current t c)

-- `coroutine_yield`, with the end of the `coroutine_resume` that control goes back to. The result
-- is that of `coroutine_yield`.
yielded : Thread → ℕ → Run StaticString (FiberState × Bool) → Thread × Run StaticString Bool
unfolding resume_returns
yielded t c (done (next, true)) = (
  (resume_returns (record t { co = set_co t.co c (record (t.co c) { fiber = next }) }) c).0,
  done true,
)
yielded t c (done (next, false)) = (t, done false)
yielded t c (throw e) = (t, throw e)
yielded t c (crash f) = (t, crash f)

yield_at : Thread → Option ℕ → Thread × Run StaticString Bool
unfolding fiber_yield yielded
yield_at t none = (t, throw not_in_coroutine)
yield_at t (some c) =
    if (t.co c).is_native_thread
    then (t, throw cannot_suspend_top_level_coroutine)
    else if not (t.co c).is_yieldable
    then (t, throw native_function_disabled_yielding)
    else yielded t c (fiber_yield (t.co c).fiber)

unfoldable pub yield_ : Thread → Thread × Run StaticString Bool
unfolding yield_at
yield_ t = yield_at t (executing t.nest)

unfoldable pub can_yield : Co → Bool
can_yield c = c.is_yieldable && not c.is_native_thread
