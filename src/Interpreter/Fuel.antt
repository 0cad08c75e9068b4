-- ===== src/Interpreter/Fuel.antt =====
-- The fuel of the loop of src/interpreter.c: more of it changes no outcome, and a function without
-- backward jumps and calls ends.
use fluffy_vm.Prelude.{
  ℕ, zero, suc, ◌+◌, ◌-◌, ◌≤◌, ◌≡◌, ◌≢◌, refl, arith, Bool, true, false, Option, none, some, ltb,
  if◌then◌else◌, length, get_or, get_elem?, take, drop, ◌⊎◌, inl, inr, Option-cases,
}
use fluffy_vm.Prelude.Run.{Run, done, throw, crash, ◌>>=◌}
use fluffy_vm.Value.{Host}
use fluffy_vm.Frame.{Frame, get_register}
use fluffy_vm.Interpreter.Decode.{Instruction, decode, opcode_of, is_skipped, Opcode, op_call}
use fluffy_vm.Interpreter.Machine.{Proto, Vm, Stop, exhausted, Outside, lift}
use fluffy_vm.Interpreter.Ops.{
  Next, continue, returned, call, callable, prolog, push_all, arg_count,
}
use fluffy_vm.Interpreter.Exec.{execute, dispatch, step, enter, proceed, loop, exec}

module _ {D : Type 0} where
  -- The second run is the first one, unless that was out of fuel.
  abbrev pub Extends : {A : Type 0} → Run (Stop D) A → Run (Stop D) A → Type 0
  Extends m m' = (m ≡ throw exhausted) ⊎ (m ≡ m')

  then-Extends :
      {A B : Type 0} (m : Run (Stop D) A) (f f' : A → Run (Stop D) B)
      → ((a : A) → Extends (f a) (f' a))
      → Extends (m >>= f) (m >>= f')
  then-Extends (done a) f f' k = k a
  then-Extends (throw e) f f' k = inr refl
  then-Extends (crash x) f f' k = inr refl

  bind-Extends :
      {A B : Type 0} (m m' : Run (Stop D) A) (f f' : A → Run (Stop D) B)
      → Extends m m'
      → ((a : A) → Extends (f a) (f' a))
      → Extends (m >>= f) (m' >>= f')
  bind-Extends m m' f f' (inl e) k = inl (rw e refl)
  bind-Extends m m' f f' (inr e) k = rw (← e) (then-Extends m f f' k)

  if-Extends :
      {A : Type 0} (b : Bool) {m m' n n' : Run (Stop D) A}
      → Extends m m'
      → Extends n n'
      → Extends (if b then m else n) (if b then m' else n')
  if-Extends true e e' = e
  if-Extends false e e' = e'

  module _ (callee callee' : Vm D → Frame D → Run (Stop D) (Vm D × Frame D × ℕ))
      (more : (vm : Vm D) (f : Frame D) → Extends (callee vm f) (callee' vm f)) where
    call-Extends :
        (outside : Outside D) (depth : ℕ) (vm : Vm D) (f : Frame D) (a b c : ℕ)
        → Extends (call outside callee depth vm f a b c) (call outside callee' depth vm f a b c)
    unfolding call
    call-Extends outside depth vm f a b c = if-Extends (ltb f.sp (arg_count f c)) (inr refl) (
        then-Extends (lift vm (get_register f a)) _ _ (λ v.
          then-Extends (lift vm (callable v)) _ _ (λ id.
            then-Extends (prolog outside depth vm id) _ _ (λ g0.
              then-Extends
                (lift vm (
                  push_all g0 (take (arg_count f c) (drop (f.sp - arg_count f c) f.general_stack))))
                _ _
                (λ g. bind-Extends (callee vm g) (callee' vm g) _ _ (more vm g) (λ r. inr refl))))))

    execute-Extends :
        (host : Host D) (outside : Outside D) (depth : ℕ) (p : Proto D) (op : Opcode)
        (ins : Instruction) (vm : Vm D) (f : Frame D) (pc : ℕ)
        → Extends
            (execute host outside callee depth p op ins vm f pc)
            (execute host outside callee' depth p op ins vm f pc)
    unfolding execute
    execute-Extends host outside depth p op_call ins vm f pc =
        bind-Extends _ _ _ _
          (call-Extends outside depth vm (record f { pc = pc }) ins.field_a ins.field_b ins.field_c)
          (λ r. inr refl)
    execute-Extends host outside depth p _ ins vm f pc = inr refl

    step-Extends :
        (host : Host D) (outside : Outside D) (depth : ℕ) (p : Proto D) (vm : Vm D) (f : Frame D)
        (pc : ℕ)
        → Extends
            (step host outside callee depth p vm f pc)
            (step host outside callee' depth p vm f pc)
    unfolding step
    step-Extends host outside depth p vm f pc =
        let ins = decode (get_or p.instructions pc 0) in
        if-Extends (is_skipped ins.cond_flags f.flag_register) (inr refl)
          (dispatch-Extends (opcode_of ins.opcode) ins)
      where
        dispatch-Extends :
            (op : Option Opcode) (ins : Instruction)
            → Extends
                (dispatch host outside callee depth p op ins vm f pc)
                (dispatch host outside callee' depth p op ins vm f pc)
        dispatch-Extends none ins = inr refl
        dispatch-Extends (some op) ins = execute-Extends host outside depth p op ins vm f pc

module _ {D : Type 0} (host : Host D) (outside : Outside D) where
  enter-Extends :
      (body body' : Proto D → Vm D → Frame D → ℕ → Run (Stop D) (Vm D × Frame D × ℕ))
      → ((p : Proto D) (vm : Vm D) (f : Frame D) (pc : ℕ)
          → Extends (body p vm f pc) (body' p vm f pc))
      → (vm : Vm D) (f : Frame D)
      → Extends (enter host outside body vm f) (enter host outside body' vm f)
  unfolding enter
  enter-Extends body body' more vm f = elim (Option-cases (get_elem? vm.closures f.closure_id)) [
    | inl e ↦ rw (e, enter) (inr refl)
    | inr (c, e) ↦ elim (Option-cases c.prototype) [
      | inl native ↦ rw (e, native, enter) (inr refl)
      | inr (n, lua) ↦ elim (Option-cases (get_elem? vm.protos n)) [
        | inl missing ↦ rw (e, lua, missing, enter) (inr refl)
        | inr (p, is) ↦ rw (e, lua, is, enter) (more p vm f 0)
      ]
    ]
  ]

  proceed-Extends :
      (rest rest' : Vm D → Frame D → ℕ → Run (Stop D) (Vm D × Frame D × ℕ))
      → ((vm : Vm D) (f : Frame D) (pc : ℕ) → Extends (rest vm f pc) (rest' vm f pc))
      → (m m' : Run (Stop D) (Next D)) → Extends m m'
      → Extends (proceed host outside rest m) (proceed host outside rest' m')
  unfolding proceed
  proceed-Extends rest rest' more m m' (inl e) = inl (rw e refl)
  proceed-Extends rest rest' more m m' (inr e) = rw (← e) (same m)
    where
      same :
          (m : Run (Stop D) (Next D))
          → Extends (proceed host outside rest m) (proceed host outside rest' m)
      same (done (continue vm f pc)) = more vm (record f { pc = pc }) pc
      same (done (returned vm f count)) = inr refl
      same (throw e) = inr refl
      same (crash x) = inr refl

  loop-Extends :
      (n m depth : ℕ) (p : Proto D) (vm : Vm D) (f : Frame D) (pc : ℕ)
      → n ≤ m
      → Extends (loop host outside n depth p vm f pc) (loop host outside m depth p vm f pc)
  unfolding loop
  loop-Extends zero m depth p vm f pc le = inl refl
  loop-Extends (suc n) zero depth p vm f pc le = absurd (omega arith)
  loop-Extends (suc n) (suc m) depth p vm f pc le =
      if-Extends (ltb pc (length p.instructions))
        (proceed-Extends (loop host outside n depth p) (loop host outside m depth p)
          (λ vm1 f1 pc1. loop-Extends n m depth p vm1 f1 pc1 (omega arith)) _ _
          (step-Extends (enter host outside (loop host outside n (depth + 1)))
            (enter host outside (loop host outside m (depth + 1)))
            (enter-Extends (loop host outside n (depth + 1)) (loop host outside m (depth + 1))
              (λ p1 vm1 f1 pc1. loop-Extends n m (depth + 1) p1 vm1 f1 pc1 (omega arith)))
            host outside depth p vm f pc))
        (inr refl)

  -- With at least as much fuel, `interpreter_exec` ends as it did, unless it was out of fuel: it returns
  -- the same results, raises the same error, or crashes in the same way.
  pub exec-Extends :
      (n m depth : ℕ) (vm : Vm D) (f : Frame D)
      → n ≤ m
      → exec host outside n depth vm f ≢ throw exhausted
      → exec host outside m depth vm f ≡ exec host outside n depth vm f
  unfolding exec
  exec-Extends n m depth vm f le more =
      elim (enter-Extends (loop host outside n depth) (loop host outside m depth)
        (λ p1 vm1 f1 pc1. loop-Extends n m depth p1 vm1 f1 pc1 le) vm f) [
          | inl e ↦ absurd (more e)
          | inr e ↦ cc
        ]
