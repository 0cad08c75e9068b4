-- ===== src/Stack/Laws.antt =====
-- The stack of src/stack.c behaves as the bounded list of `Lifo`.
use native.Mathlib.Numerals.{add-one}
use fluffy_vm.Prelude.{
  ℕ, zero, suc, ◌+◌, ◌-◌, ◌≤◌, ◌<◌, ◌≡◌, refl, ap, ap₂, arith, true, List, [], ◌∷◌, Option, none,
  some, length, get_or, set, replicate, length-set, length-replicate, get_or-set_self,
  get_or-set_ne,
}
use fluffy_vm.Prelude.Run.{done}
use fluffy_vm.Stack.{Stack, new, pop, pop_discard, push, peek, step, run}
use fluffy_vm.Stack.Api.{Op, call_push, call_pop, call_pop_discard, call_peek}
use fluffy_vm.Stack.Lifo

-- The `n` lowest slots hold the objects `xs`, the top one first.
abbrev pub Below : {A : Type 0} → List A → List (Option A) → ℕ → Type 0
Below [] slots zero = Unit
Below (x ∷ xs) slots (suc n) = (get_or slots n none ≡ some x) × Below xs slots n
Below [] slots (suc n) = ⊥
Below (x ∷ xs) slots zero = ⊥

pub record Holds {A : Type 0} (cap : ℕ) (xs : List A) (s : Stack A) : Type 0 where
  pub size : s.stack_size ≡ cap
  pub fits : s.sp ≤ cap
  pub array_size : length s.slots ≡ cap
  pub below : Below xs s.slots s.sp

module _ {A : Type 0} where
  Below-length : (xs : List A) (slots : List (Option A)) (n : ℕ) → Below xs slots n → length xs ≡ n
  Below-length [] slots zero b = refl
  Below-length [] slots (suc n) b = elim b [ ]
  Below-length (x ∷ xs) slots zero b = elim b [ ]
  Below-length (x ∷ xs) slots (suc n) b = ap suc (Below-length xs slots n b.1)

  Below-set :
      (xs : List A) (slots : List (Option A)) (n i : ℕ) (v : Option A)
      → n ≤ i
      → Below xs slots n
      → Below xs (set slots i v) n
  Below-set [] slots zero i v h b = b
  Below-set [] slots (suc n) i v h b = b
  Below-set (x ∷ xs) slots zero i v h b = b
  Below-set (x ∷ xs) slots (suc n) i v h b = (
    rw (get_or-set_ne slots i n v none (omega arith)) b.0,
    Below-set xs slots n i v (omega arith) b.1,
  )

  Below-top :
      (x : A) (xs : List A) (slots : List (Option A)) (n : ℕ)
      → Below (x ∷ xs) slots n
      → (0 < n) × (get_or slots (n - 1) none ≡ some x) × Below xs slots (n - 1)
  Below-top x xs slots zero b = elim b [ ]
  Below-top x xs slots (suc n) b = rw pred_suc (omega arith, b.0, b.1)
    where
      pred_suc : suc n - 1 ≡ n
      pred_suc = omega arith

  Below-push :
      (x : A) (xs : List A) (slots : List (Option A)) (n : ℕ)
      → n < length slots
      → Below xs slots n
      → Below (x ∷ xs) (set slots n (some x)) (n + 1)
  Below-push x xs slots n lt b =
      rw add-one
        (get_or-set_self slots n (some x) none lt, Below-set xs slots n n (some x) (omega arith) b)

module _ {A D : Type 0} where
  step-Holds :
      (cap : ℕ) (xs : List A) (s : Stack A) (op : Op A)
      → Holds cap xs s
      → Holds cap (Lifo.step {D = D} cap xs op).0 (step {D = D} s op).0
        × ((step {D = D} s op).1 ≡ (Lifo.step {D = D} cap xs op).1)
  unfolding step Lifo.step push pop pop_discard peek
  step-Holds cap xs s (call_push a) h = ground (
    arith,
    Below-length xs s.slots s.sp h.below,
    Below-push a xs s.slots s.sp,
    length-set s.slots s.sp (some a),
  )
  step-Holds cap [] s call_pop h = let e = Below-length [] s.slots s.sp h.below in ground arith
  step-Holds cap (x ∷ xs) s call_pop h = ground (
    arith,
    Below-top x xs s.slots s.sp h.below,
    length-set s.slots (s.sp - 1) none,
    Below-set xs s.slots (s.sp - 1) (s.sp - 1) none,
  )
  step-Holds cap [] s call_pop_discard h =
      let e = Below-length [] s.slots s.sp h.below in ground arith
  step-Holds cap (x ∷ xs) s call_pop_discard h = ground (
    arith,
    Below-top x xs s.slots s.sp h.below,
    length-set s.slots (s.sp - 1) none,
    Below-set xs s.slots (s.sp - 1) (s.sp - 1) none,
  )
  step-Holds cap [] s call_peek h = let e = Below-length [] s.slots s.sp h.below in ground arith
  step-Holds cap (x ∷ xs) s call_peek h = ground (arith, Below-top x xs s.slots s.sp h.below)

  -- A stack that holds `xs` answers any sequence of calls as the list `xs` does.
  pub run_refines :
      (cap : ℕ) (xs : List A) (s : Stack A) (ops : List (Op A))
      → Holds cap xs s
      → run {D = D} s ops ≡ Lifo.run cap xs ops
  unfolding run Lifo.run
  run_refines cap xs s [] h = refl
  run_refines cap xs s (op ∷ ops) h =
      let (held, reply) = step-Holds cap xs s op h in
      ap₂ ◌∷◌ reply (run_refines cap (Lifo.step {D = D} cap xs op).0 (step {D = D} s op).0 ops held)

module _ {A D : Type 0} where
  -- From `stack_new` on, no sequence of `stack_push`, `stack_pop` and `stack_peek` tells the array and
  -- its stack pointer from a last-in first-out list of at most `size` objects. The replies include
  -- "stack overflow" and "stack underflow".
  pub new-run_refines :
      (size : ℕ) (ops : List (Op A))
      → (s : Stack A) × (new {D = D} true true size ≡ done s)
        × (run {D = D} s ops ≡ Lifo.run size [] ops)
  unfolding new
  new-run_refines size ops =
      let s : Stack A = record { sp = 0; stack_size = size; slots = replicate size none } in
      (s, refl, run_refines size [] s ops fresh)
    where
      fresh :
          Holds {A = A} size [] (record { sp = 0; stack_size = size; slots = replicate size none })
      fresh = record {
        size = refl;
        fits = omega arith;
        array_size = length-replicate size none;
        below = tt;
      }
