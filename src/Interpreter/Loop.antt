-- ===== src/Interpreter/Loop.antt =====
-- The rounds of `interpreter_exec` in src/interpreter.c, from the first to the last.
use fluffy_vm.Prelude.{
  ℕ, zero, suc, ◌+◌, ◌<◌, ◌≡◌, refl, ap, arith, ltb, length, get_or, Bool-cases, inl, inr,
  Option-cases,
}
use fluffy_vm.Prelude.Run.{Run, done, throw, crash, same_result}
use fluffy_vm.Value.{Host}
use fluffy_vm.Frame.{Frame}
use fluffy_vm.Interpreter.Decode.{decode, opcode_of, is_skipped}
use fluffy_vm.Interpreter.Machine.{Proto, Vm, Stop, Outside}
use fluffy_vm.Interpreter.Ops.{Next, continue, returned}
use fluffy_vm.Interpreter.Exec.{dispatch, step, enter, proceed, loop}
use fluffy_vm.Interpreter.Frames.{IsLuaFrame, IsState-control}
use fluffy_vm.Interpreter.Kept.{IsKept}
use fluffy_vm.Interpreter.Invariant.{execute-IsKept}

module _ {D : Type 0} (host : Host D) (outside : Outside D) where
  -- The call state with which the loop goes on, or ends.
  abbrev HasLuaFrame : Next D → Type 0
  HasLuaFrame (continue vm f pc) = IsLuaFrame f
  HasLuaFrame (returned vm f count) = IsLuaFrame f

  IsKept-HasLuaFrame : (len : ℕ) (n : Next D) → IsKept len n → HasLuaFrame n
  IsKept-HasLuaFrame len (continue vm f pc) h = h.0
  IsKept-HasLuaFrame len (returned vm f count) h = h

  -- One round of the loop, wherever a skipped instruction leads.
  step-HasLuaFrame :
      (callee : Vm D → Frame D → Run (Stop D) (Vm D × Frame D × ℕ)) (depth : ℕ) (p : Proto D)
      (vm : Vm D) (f : Frame D) (pc : ℕ) {n : Next D}
      → IsLuaFrame f
      → pc < length p.instructions
      → step host outside callee depth p vm f pc ≡ done n
      → HasLuaFrame n
  unfolding step dispatch
  step-HasLuaFrame callee depth p vm f pc {n} w inside h =
      let ins = decode (get_or p.instructions pc 0) in
      elim (Bool-cases (is_skipped ins.cond_flags f.flag_register)) [
        | inl skipped ↦
            let same : continue vm f (pc + outside.skip_increment pc) ≡ n =
              cc (rw (skipped, step) at h) in
            rw (← same) w
        | inr not_skipped ↦ elim (Option-cases (opcode_of ins.opcode)) [
          | inl bad ↦ cc (rw (not_skipped, bad, step) at h)
          | inr (op, is) ↦ IsKept-HasLuaFrame (length p.instructions) n (
              execute-IsKept host outside callee depth p ins vm f pc w inside op
                (rw (not_skipped, is, step) at h))
        ]
      ]

  proceed-IsLuaFrame :
      (rest : Vm D → Frame D → ℕ → Run (Stop D) (Vm D × Frame D × ℕ)) {vm' : Vm D} {g : Frame D}
      {count : ℕ}
      → ((vm : Vm D) (f : Frame D) (pc : ℕ)
          → IsLuaFrame f
          → rest vm f pc ≡ done (vm', g, count)
          → IsLuaFrame g)
      → (m : Run (Stop D) (Next D)) → ((n : Next D) → m ≡ done n → HasLuaFrame n)
      → proceed host outside rest m ≡ done (vm', g, count)
      → IsLuaFrame g
  unfolding proceed
  proceed-IsLuaFrame rest ih (done (continue vm f pc)) kept h =
      ih vm (record f { pc = pc }) pc (IsState-control f pc f.flag_register (kept _ refl)) h
  proceed-IsLuaFrame rest {vm'} {g} {count} ih (done (returned vm f k)) kept h =
      let same : f ≡ g = ap (λ t. t.1) (same_result (done (vm, f, k)) refl h) in
      rw (← same) (kept _ refl)
  proceed-IsLuaFrame rest ih (throw e) kept h = cc
  proceed-IsLuaFrame rest ih (crash x) kept h = cc

  -- What `interpreter_exec` leaves of a well-formed call state of a Lua function is well formed,
  -- wherever in the function it starts and whatever it calls: the stack pointer is within the general
  -- stack, the values below it are present, and there are as many registers as before. This holds
  -- whatever amount a skipped instruction moves the program counter forward by.
  pub loop-IsLuaFrame :
      (fuel depth : ℕ) (p : Proto D) (vm : Vm D) (f : Frame D) (pc : ℕ) {vm' : Vm D} {g : Frame D}
      {count : ℕ}
      → IsLuaFrame f
      → loop host outside fuel depth p vm f pc ≡ done (vm', g, count)
      → IsLuaFrame g
  unfolding loop
  loop-IsLuaFrame zero depth p vm f pc w h = cc
  loop-IsLuaFrame (suc fuel) depth p vm f pc {vm'} {g} {count} w h =
      elim (Bool-cases (ltb pc (length p.instructions))) [
        | inl inside ↦
            proceed-IsLuaFrame (loop host outside fuel depth p)
              (λ vm1 f1 pc1 w1 e1. loop-IsLuaFrame fuel depth p vm1 f1 pc1 w1 e1)
              (step host outside (enter host outside (loop host outside fuel (depth + 1))) depth p
                vm f pc)
              (λ n e.
                step-HasLuaFrame (enter host outside (loop host outside fuel (depth + 1))) depth p
                  vm f pc w (ground arith) e)
              (rw (inside, loop) at h)
        | inr end ↦
            let last =
              same_result (done (vm, record f { pc = pc }, 0)) refl (rw (end, loop) at h) in
            let same : record f { pc = pc } ≡ g = ap (λ t. t.1) last in
            rw (← same) (IsState-control f pc f.flag_register w)
      ]
