-- ===== src/Tests/Threads.antt =====
-- The bounded stack and the coroutines at concrete threads.
use fluffy_vm.Prelude.{ℕ, ◌≡◌, refl, true, false, List, [], ◌∷◌, leb, if◌then◌else◌, length}
use fluffy_vm.Prelude.Run.{done, throw}
use fluffy_vm.Value.Error.{stack_overflow, cannot_resume_dead_coroutine}
use fluffy_vm.Stack.{Stack, new, run}
use fluffy_vm.Stack.Api.{Op, call_push, call_pop, call_pop_discard, call_peek}
use fluffy_vm.Stack.Lifo
use fluffy_vm.Stack.Laws.{new-run_refines}
use fluffy_vm.Coroutine.{Co, Thread, dead, new_co, max_coroutine_nest, resume, finish}
use fluffy_vm.Coroutine.Steps.{
  Reach, here, next, resumes, finishes, IsNested, start, Reach-start-IsNested, dead_never_resumes,
}

abbrev calls : List (Op ℕ)
calls = call_push 7 ∷ call_push 8 ∷ call_peek ∷ call_pop ∷ call_pop_discard ∷ call_pop ∷ []

new-run_refines_example :
    (s : Stack ℕ) × (new {D = ℕ} true true 1 ≡ done s) × (run {D = ℕ} s calls ≡ Lifo.run 1 [] calls)
new-run_refines_example = new-run_refines 1 calls

abbrev sleeping : ℕ → Co
sleeping c = new_co

abbrev at_start : Thread
at_start = start sleeping 0

abbrev in_first : Thread
in_first = (resume at_start 1).0

-- The top-level coroutine 0 has resumed coroutine 1.
resumed_first : Reach at_start in_first
resumed_first = next here (resumes 1 in_first refl)

Reach-start-IsNested_example : IsNested in_first
Reach-start-IsNested_example = Reach-start-IsNested sleeping 0 (λ c. refl) resumed_first

abbrev after_first : Thread
after_first = finish in_first false

first_finishes : Reach at_start after_first
unfolding resume
first_finishes = next resumed_first (finishes false 1 after_first refl refl refl)

first_dead : (after_first.co 1).fiber ≡ dead
unfolding resume finish
first_dead = refl

dead_never_resumes_example : resume after_first 1 ≡ (
  after_first,
  if leb max_coroutine_nest (length after_first.nest)
      then throw stack_overflow
      else throw cannot_resume_dead_coroutine,
)
dead_never_resumes_example = dead_never_resumes 1 first_dead here
