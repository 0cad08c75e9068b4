-- ===== src/Runtime/Threads.antt =====
-- src/fluffyvm.c: `initThread`, `cleanThread`, and `fluffyvm_start_thread` with `threadStub`: what a start allocates and gives
-- back, and the signal by which the new thread reports that it is set up.
use fluffy_vm.Prelude.{
  ℕ, ◌+◌, ◌-◌, ◌≢◌, Bool, not, List, [], ◌∷◌, Option, none, some, if◌then◌else◌,
}
use fluffy_vm.Value.Error.{StaticString, out_of_memory, pthread_create_error}

-- `numberOfManagedThreads` and `currentAvailableThreadID`.
pub record Managed : Type 0 where
  pub threads : ℕ
  pub next_id : ℕ

-- `initThread`, and the thread's number.
unfoldable pub init_thread : Managed → Managed × ℕ
init_thread m = (record { threads = m.threads + 1; next_id = m.next_id + 1 }, m.next_id)

-- `cleanThread`
unfoldable pub clean_thread : Managed → Managed
clean_thread m = record m { threads = m.threads - 1 }

-- What `fluffyvm_start_thread` allocates by hand. The stack of coroutines is the collector's.
pub data Resource : Type 0 where
  thread_args tid_storage root lock_and_signal : Resource

-- The resources that a start that fails has given back, and its message; `none` when the thread is running. The five
-- tests are those of the two `malloc`s, of the new root, of the stack of coroutines and of `pthread_create`.
unfoldable pub start_thread :
    Bool → Bool → Bool → Bool → Bool → List Resource × List Resource × Option StaticString
start_thread args_ok tid_ok root_ok stack_ok create_ok =
    if not args_ok
    then ([], [], some out_of_memory)
    else if not tid_ok
    then (thread_args ∷ [], thread_args ∷ [], some out_of_memory)
    else if not root_ok
    then (thread_args ∷ tid_storage ∷ [], tid_storage ∷ thread_args ∷ [], some out_of_memory)
    else if not stack_ok
    then (
      thread_args ∷ tid_storage ∷ root ∷ [],
      root ∷ tid_storage ∷ thread_args ∷ [],
      some out_of_memory,
    )
    else if not create_ok
    then (
      thread_args ∷ tid_storage ∷ root ∷ lock_and_signal ∷ [],
      lock_and_signal ∷ root ∷ tid_storage ∷ thread_args ∷ [],
      some pthread_create_error,
    )
    else (thread_args ∷ tid_storage ∷ root ∷ lock_and_signal ∷ [], [], none)

-- The starting thread, between `pthread_create` and the end of `pthread_cond_wait`, and the new one, around its
-- `pthread_cond_signal`. Nothing is tested under the lock, which the new thread does not take.
pub data Starter : Type 0 where
  before_wait waiting returned : Starter

pub data Started : Type 0 where
  setting_up signalled : Started

-- A signal wakes a thread that waits; to one that does not wait yet it is nothing.
pub data WakeStep : Starter → Started → Starter → Started → Type 0 where
  wait : {t : Started} → WakeStep before_wait t waiting t
  signal_wakes : WakeStep waiting setting_up returned signalled
  signal_lost : WakeStep before_wait setting_up before_wait signalled

pub data WakeReach : Starter → Started → Starter → Started → Type 0 where
  here : {s : Starter} {t : Started} → WakeReach s t s t
  there :
      {s s' s'' : Starter} {t t' t'' : Started}
      → WakeReach s t s' t'
      → WakeStep s' t' s'' t''
      → WakeReach s t s'' t''

-- The starting thread has not come back, and nothing will wake it.
abbrev IsStuck : Starter → Started → Type 0
IsStuck returned t = ⊥
IsStuck s setting_up = ⊥
IsStuck s signalled = Unit

WakeStep-IsStuck :
    {s s' : Starter} {t t' : Started} → WakeStep s t s' t' → IsStuck s t → IsStuck s' t'
WakeStep-IsStuck (wait {t = setting_up}) h = h
WakeStep-IsStuck (wait {t = signalled}) h = h
WakeStep-IsStuck signal_wakes h = h
WakeStep-IsStuck signal_lost h = tt

WakeReach-IsStuck :
    {s s' : Starter} {t t' : Started} → WakeReach s t s' t' → IsStuck s t → IsStuck s' t'
WakeReach-IsStuck here h = h
WakeReach-IsStuck (there r st) h = WakeStep-IsStuck st (WakeReach-IsStuck r h)

not_returned : (s : Starter) (t : Started) → IsStuck s t → s ≢ returned
not_returned before_wait t h = λ e. cc
not_returned waiting t h = λ e. cc
not_returned returned t h = absurd h

-- When the new thread signals before the starting thread waits, no step leads `fluffyvm_start_thread` to its end. (A wake
-- without a signal, which POSIX permits, is not a step here.)
pub start_thread-lost_signal :
    {s : Starter} {t : Started} → WakeReach before_wait signalled s t → s ≢ returned
start_thread-lost_signal {s} {t} r = not_returned s t (WakeReach-IsStuck r tt)
