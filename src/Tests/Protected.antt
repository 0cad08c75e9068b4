-- ===== src/Tests/Protected.antt =====
-- Protected calls, and the call stack when it is full.
use fluffy_vm.Prelude.{
  ℕ, ◌≤◌, ◌≡◌, refl, arith, true, false, [], ◌∷◌, none, some, length, replicate, length-replicate,
}
use fluffy_vm.Prelude.Run.{Run, done, throw, crash, deadlock}
use fluffy_vm.Value.Error.{static, bad_key}
use fluffy_vm.Interpreter.Ops.{call_stack_size}
use fluffy_vm.CallStack.{CallStack, Jump, jump, Memory, function_prolog, or_error, xpcall}
use fluffy_vm.CallStack.Laws.{IsSettled, xpcall_lem, overflow-deadlock}

abbrev two_deep : CallStack
two_deep = record { states = 20 ∷ 10 ∷ []; current = some 20; handler = none; locked = false }

two_deep-IsSettled : IsSettled two_deep
two_deep-IsSettled = record { settled = refl; free = refl }

-- The error leaves a call state, 30, above the caller's.
abbrev left : CallStack
left = record { states = 30 ∷ 20 ∷ 10 ∷ []; current = some 30; handler = some 7; locked = false }

left-IsSettled : IsSettled left
left-IsSettled = record { settled = refl; free = refl }

abbrev failing : CallStack → Run (Jump ℕ) CallStack
failing c = throw (jump (static bad_key) left)

xpcall_lem_example : xpcall 1 7 failing (λ c. done c) two_deep ≡ done (two_deep, false)
xpcall_lem_example =
    xpcall_lem 0 7 failing (λ c. done c) two_deep left left 20 (30 ∷ []) (10 ∷ []) (static bad_key)
      two_deep-IsSettled refl refl refl refl left-IsSettled refl (λ e. omega (arith, e), tt)

abbrev enough_memory : Memory
enough_memory = record { object = some 30; registers_ok = true; stack_ok = true }

abbrev full : CallStack
full = record { states = 5 ∷ replicate 511 4; current = some 5; handler = none; locked = false }

full-IsSettled : IsSettled full
full-IsSettled = record { settled = refl; free = refl }

full_length : call_stack_size ≤ length full.states
full_length = omega (arith, length-replicate {A = ℕ} 511 4)

overflow-deadlock_example :
    xpcall {D = ℕ} 1 7 (λ s. or_error (function_prolog false enough_memory s)) (λ s. done s) full
    ≡ crash deadlock
overflow-deadlock_example =
    overflow-deadlock 0 7 30 false enough_memory full full-IsSettled refl full_length
