-- ===== src/Coroutine/Steps.antt =====
-- One thread's resumes, yields and returns in any order, and what holds after them.
use fluffy_vm.Prelude.{
  ℕ, ◌≤◌, ◌<◌, ◌≡◌, arith, Bool, true, false, ◌||◌, List, [], ◌∷◌, some, ◌==◌, leb, if◌then◌else◌,
  length,
}
use fluffy_vm.Prelude.Run.{done, throw}
use fluffy_vm.Value.Error.{
  stack_overflow, cannot_resume_dead_coroutine, cannot_resume_running_coroutine,
}
use fluffy_vm.Coroutine.{
  FiberState, running, suspended, dead, Co, Thread, max_coroutine_nest, set_co, executing, resume,
  yield_, finish, disallow_yield, allow_yield,
}

-- What the thread does next. A task ends only in a coroutine that was resumed; the top-level
-- coroutine's fiber never runs its task (`lateInit` of src/fluffyvm.c marks it as native).
pub data Step (t : Thread) : Thread → Type 0 where
  resumes : (c : ℕ) (u : Thread) → u ≡ (resume t c).0 → Step t u
  yields : (u : Thread) → u ≡ (yield_ t).0 → Step t u
  finishes :
      (failed : Bool) (c : ℕ) (u : Thread)
      → executing t.nest ≡ some c
      → (t.co c).is_native_thread ≡ false
      → u ≡ finish t failed
      → Step t u
  disallows : (u : Thread) → u ≡ disallow_yield t → Step t u
  allows : (u : Thread) → u ≡ allow_yield t → Step t u

abbrev pub is_running : FiberState → Bool
is_running running = true
is_running suspended = false
is_running dead = false

abbrev pub mem : ℕ → List ℕ → Bool
mem c [] = false
mem c (d ∷ ds) = c == d || mem c ds

abbrev pub Distinct : List ℕ → Type 0
Distinct [] = Unit
Distinct (c ∷ cs) = (mem c cs ≡ false) × Distinct cs

-- The coroutines whose fiber is running are those on the stack, each once, and the stack keeps
-- within its size.
pub record IsNested (t : Thread) : Type 0 where
  pub on_stack : (c : ℕ) → mem c t.nest ≡ is_running (t.co c).fiber
  pub distinct : Distinct t.nest
  pub depth : length t.nest ≤ max_coroutine_nest

resume-IsNested : (t : Thread) (c : ℕ) → IsNested t → IsNested (resume t c).0
unfolding resume
resume-IsNested t c v = record {
  on_stack = λ d. ground (arith, v.on_stack d, v.on_stack c);
  distinct = ground (arith, v.on_stack c);
  depth = ground (arith, v.on_stack c);
}

yield-IsNested : (t : Thread) → IsNested t → IsNested (yield_ t).0
unfolding yield_
yield-IsNested t v = record {
  on_stack = λ d. ground (arith, v.on_stack d);
  distinct = ground arith;
  depth = ground arith;
}

finish-IsNested : (t : Thread) (failed : Bool) → IsNested t → IsNested (finish t failed)
unfolding finish
finish-IsNested t failed v = record {
  on_stack = λ d. ground (arith, v.on_stack d);
  distinct = ground arith;
  depth = ground arith;
}

allow-IsNested : (t : Thread) → IsNested t → IsNested (allow_yield t) × IsNested (disallow_yield t)
unfolding allow_yield disallow_yield
allow-IsNested t v = (
  record {
    on_stack = λ d. ground (arith, v.on_stack d);
    distinct = ground arith;
    depth = ground arith;
  },
  record {
    on_stack = λ d. ground (arith, v.on_stack d);
    distinct = ground arith;
    depth = ground arith;
  },
)

Step-IsNested : {t u : Thread} → Step t u → IsNested t → IsNested u
Step-IsNested {t} (resumes c u e) v = rw e (resume-IsNested t c v)
Step-IsNested {t} (yields u e) v = rw e (yield-IsNested t v)
Step-IsNested {t} (finishes failed c u x n e) v = rw e (finish-IsNested t failed v)
Step-IsNested {t} (disallows u e) v = rw e (allow-IsNested t v).1
Step-IsNested {t} (allows u e) v = rw e (allow-IsNested t v).0

pub data Reach (s : Thread) : Thread → Type 0 where
  here : Reach s s
  next : {t u : Thread} → Reach s t → Step t u → Reach s u

Reach-IsNested : {s t : Thread} → IsNested s → Reach s t → IsNested t
Reach-IsNested v here = v
Reach-IsNested v (next r st) = Step-IsNested st (Reach-IsNested v r)

-- A thread as `lateInit` leaves it: the coroutine `main` runs, alone on the stack.
abbrev pub main_co : Co
main_co = record {
  fiber = running;
  is_yieldable = true;
  is_native_thread = true;
  has_error = false;
}

abbrev pub start : (ℕ → Co) → ℕ → Thread
start others main = record { co = set_co others main main_co; nest = main ∷ [] }

start-IsNested :
    (others : ℕ → Co) (main : ℕ)
    → ((c : ℕ) → is_running (others c).fiber ≡ false)
    → IsNested (start others main)
start-IsNested others main h = record {
  on_stack = λ c. ground (arith, h c);
  distinct = ground arith;
  depth = omega arith;
}

-- From a thread that runs its top-level coroutine, whatever is resumed, yields, returns or fails, in
-- any order: a coroutine is on the thread's stack exactly when its fiber is running, it is there at
-- most once, and at most FLUFFYVM_MAX_COROUTINE_NEST are.
pub Reach-start-IsNested :
    (others : ℕ → Co) (main : ℕ) {t : Thread}
    → ((c : ℕ) → is_running (others c).fiber ≡ false)
    → Reach (start others main) t
    → IsNested t
Reach-start-IsNested others main h r = Reach-IsNested (start-IsNested others main h) r

Step-dead : {t u : Thread} (c : ℕ) → Step t u → (t.co c).fiber ≡ dead → (u.co c).fiber ≡ dead
unfolding resume yield_ finish disallow_yield allow_yield
Step-dead c (resumes d u e) h = ground arith
Step-dead c (yields u e) h = ground arith
Step-dead c (finishes failed d u x n e) h = ground arith
Step-dead c (disallows u e) h = ground arith
Step-dead c (allows u e) h = ground arith

Reach-dead : {s t : Thread} (c : ℕ) → Reach s t → (s.co c).fiber ≡ dead → (t.co c).fiber ≡ dead
Reach-dead c here h = h
Reach-dead c (next r st) h = Step-dead c st (Reach-dead c r h)

-- A coroutine whose fiber is dead stays dead, and every later `coroutine_resume` of it fails, with
-- "cannot resume dead corotine" unless the stack of coroutines is full, and leaves the thread as it
-- was.
pub dead_never_resumes :
    {s t : Thread} (c : ℕ)
    → (s.co c).fiber ≡ dead
    → Reach s t
    → resume t c ≡ (
      t,
      if leb max_coroutine_nest (length t.nest)
          then throw stack_overflow
          else throw cannot_resume_dead_coroutine,
    )
unfolding resume
dead_never_resumes {s} {t} c h r = ground (arith, Reach-dead c r h)

-- `coroutine_resume` of a coroutine that is on the thread's stack fails and leaves the thread as it
-- was, with "cannot resume running coroutine" unless the stack is full.
pub resume_running :
    (t : Thread) (c : ℕ)
    → IsNested t
    → mem c t.nest ≡ true
    → resume t c ≡ (
      t,
      if leb max_coroutine_nest (length t.nest)
          then throw stack_overflow
          else throw cannot_resume_running_coroutine,
    )
unfolding resume
resume_running t c v h = ground (arith, v.on_stack c)

-- Resuming a suspended coroutine that may yield, and yielding at once, gives control back to the
-- resumer with the same stack of coroutines and the coroutine suspended again.
pub resume-yield :
    (t : Thread) (c : ℕ)
    → (t.co c).fiber ≡ suspended
    → (t.co c).is_yieldable ≡ true
    → (t.co c).is_native_thread ≡ false
    → length t.nest < max_coroutine_nest
    → let (u, r) = resume t c in
      let (w, q) = yield_ u in
      (r ≡ done tt)
      × (q ≡ done true)
      × (executing u.nest ≡ some c)
      × (w.nest ≡ t.nest)
      × ((w.co c).fiber ≡ suspended)
unfolding resume yield_
resume-yield t c s y n room = ground arith
