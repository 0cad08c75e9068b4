-- ===== src/Interpreter/Frames.antt =====
-- Every instruction of src/interpreter.c keeps a call state well formed.
use fluffy_vm.Prelude.{
  ℕ, zero, suc, ◌+◌, ◌<◌, ◌≡◌, refl, sym, ap, ◌∙◌, arith, List, [], ◌∷◌, ◌++◌, ◌==◌, ltb, leb,
  length, set, length-set, length-append, Bool-cases, inl, inr,
}
use mathlib.Core.List.{append-nil, append_assoc}
use fluffy_vm.Prelude.Run.{Run, done, throw, crash, >>=-eq-done, same_result}
use fluffy_vm.Value.{Value, not_present}
use fluffy_vm.Value.Kind.{IsPresent}
use fluffy_vm.Value.Error.{Err}
use fluffy_vm.Frame.{
  Frame, registers_num, general_stack_size, assert_present, is_ignored_register, set_register,
  get_register, pop, pop_into, push,
}
use fluffy_vm.Frame.Laws.{IsFrame, contents, push_lem, pop_lem}
use fluffy_vm.Interpreter.Ops.{push_all, pop_all, kept, push_registers}

module _ {D : Type 0} where
  -- A well-formed call state with `n` registers.
  pub record IsState (n : ℕ) (f : Frame D) : Type 0 where
    pub base : IsFrame f
    pub register_array : length f.registers ≡ n

  -- That of a Lua function.
  abbrev pub IsLuaFrame : Frame D → Type 0
  IsLuaFrame f = IsState registers_num f

  IsPresent-of_done : (v : Value D) → assert_present v ≡ done tt → IsPresent v
  unfolding assert_present
  IsPresent-of_done not_present h = cc
  IsPresent-of_done _ h = tt

  pub push-inv :
      (f : Frame D) (v : Value D) {f' : Frame D}
      → push f v ≡ done f'
      → IsPresent v × (f.sp < general_stack_size)
  unfolding push
  push-inv f v h = elim (Bool-cases (leb general_stack_size f.sp)) [
    | inl e ↦ cc (rw e at h)
    | inr e ↦ (IsPresent-of_done v (>>=-eq-done (assert_present v) _ (rw e at h)).1, ground arith)
  ]

  -- A push that succeeds.
  pub push-done :
      {r : ℕ} (f : Frame D) (v : Value D) {f' : Frame D}
      → IsState r f
      → push f v ≡ done f'
      → IsState r f' × (contents f' ≡ contents f ++ v ∷ []) × (f'.sp ≡ f.sp + 1)
  push-done f v w h =
      let (present, room) = push-inv f v h in
      let (g, pushed, base, holds, regs, sp) = push_lem f v w.base present room in
      let same = same_result (push f v) pushed h in
      rw (← same) (record { base = base; register_array = rw regs w.register_array }, holds, sp)

  pop-inv : (f : Frame D) {r : Value D × Frame D} → pop f ≡ done r → 0 < f.sp
  unfolding pop
  pop-inv f h = elim (Bool-cases (f.sp == 0)) [ inl e ↦ cc (rw e at h) | inr e ↦ ground arith ]

  -- A pop that succeeds.
  pub pop-done :
      {r : ℕ} (f : Frame D) {v : Value D} {f' : Frame D}
      → IsState r f
      → pop f ≡ done (v, f')
      → IsState r f' × (contents f ≡ contents f' ++ v ∷ []) × (f'.sp + 1 ≡ f.sp)
  pop-done f {v} {f'} w h =
      let (u, g, popped, present, base, holds, regs, sp) = pop_lem f w.base (pop-inv f h) in
      let same = same_result (pop f) popped h in
      let same_v : u ≡ v = ap (λ r. r.0) same in
      let same_f : g ≡ f' = ap (λ r. r.1) same in
      rw (← same_f, ← same_v)
        (record { base = base; register_array = rw regs w.register_array }, holds, sp)

  -- A write of a register that succeeds.
  pub set_register-done :
      {r : ℕ} (f : Frame D) (i : ℕ) (v : Value D) {f' : Frame D}
      → IsState r f
      → set_register f i v ≡ done f'
      → IsState r f' × (contents f' ≡ contents f) × (f'.sp ≡ f.sp)
  unfolding set_register
  set_register-done f i v {f'} w h =
      let (_, _, k) = >>=-eq-done (assert_present v) _ h in
      elim (Bool-cases (is_ignored_register i)) [
        | inl e ↦ let same : f ≡ f' = cc (rw e at k) in rw (← same) (w, refl, refl)
        | inr e ↦ elim (Bool-cases (ltb i registers_num)) [
          | inl lt ↦
              let same : record f { registers = set f.registers i v } ≡ f' = cc (rw (e, lt) at k) in
              rw (← same) (
                record {
                  base = record {
                    stack_array = w.base.stack_array;
                    within = w.base.within;
                    present = w.base.present;
                  };
                  register_array = rw length-set w.register_array;
                },
                refl,
                refl,
              )
          | inr ge ↦ cc (rw (e, ge) at k)
        ]
      ]

  pub pop_into-done :
      {r : ℕ} (f : Frame D) (i : ℕ) {f' : Frame D}
      → IsState r f
      → pop_into f i ≡ done f'
      → IsState r f'
  unfolding pop_into
  pop_into-done f i w h =
      let ((v, g), popped, k) = >>=-eq-done (pop f) _ h in
      (set_register-done g i v (pop-done f w popped).0 k).0

  -- Pushing a list of values.
  pub push_all-done :
      {r : ℕ} (f : Frame D) (vs : List (Value D)) {f' : Frame D}
      → IsState r f
      → push_all f vs ≡ done f'
      → IsState r f' × (contents f' ≡ contents f ++ vs) × (f'.sp ≡ f.sp + length vs)
  unfolding push_all
  push_all-done f [] {f'} w h =
      let same : f ≡ f' = cc h in rw (← same) (w, sym (append-nil (contents f)), omega arith)
  push_all-done f (v ∷ vs) w h =
      let (g, pushed, k) = >>=-eq-done (push f v) _ h in
      let (wg, holds, sp) = push-done f v w pushed in
      let (w', rest, sp') = push_all-done g vs wg k in
      (
        w',
        rest ∙ ap (λ (xs : List (Value D)). xs ++ vs) holds ∙ append_assoc (contents f) (v ∷ []) vs,
        omega arith,
      )

  -- Popping values and dropping them.
  pub pop_all-done :
      {r : ℕ} (n : ℕ) (f : Frame D) {f' : Frame D}
      → IsState r f
      → pop_all n f ≡ done f'
      → IsState r f'
        × (f'.sp + n ≡ f.sp)
        × (vs : List (Value D)) × (length vs ≡ n)
        × (contents f ≡ contents f' ++ vs)
  unfolding pop_all
  pop_all-done zero f {f'} w h =
      let same : f ≡ f' = cc h in
      rw (← same) (w, omega arith, [], refl, sym (append-nil (contents f)))
  pop_all-done (suc n) f w h =
      let ((v, g), popped, k) = >>=-eq-done (pop f) _ h in
      let (wg, holds, sp) = pop-done f w popped in
      let (w', sp', us, len, rest) = pop_all-done n g wg k in
      (
        w',
        omega arith,
        us ++ v ∷ [],
        rw (length-append us (v ∷ [])) (omega (arith, len)),
        holds ∙ ap (λ (xs : List (Value D)). xs ++ v ∷ []) rest ∙ append_assoc _ us (v ∷ []),
      )

  kept-done :
      {r : ℕ} (f : Frame D) (v : Value D) {g' : Frame D}
      → IsState r f
      → (m : Run (Err D) (Frame D)) → push f v ≡ m
      → kept f m ≡ done g'
      → IsState r g'
  unfolding kept
  kept-done f v {g'} w (done g) e h = let same : g ≡ g' = cc h in rw (← same) (push-done f v w e).0
  kept-done f v {g'} w (throw x) e h = let same : f ≡ g' = cc h in rw (← same) w
  kept-done f v w (crash x) e h = cc

  -- RETURN's pushes of registers.
  pub push_registers-done :
      {r : ℕ} (n : ℕ) (f : Frame D) (from : ℕ) {f' : Frame D}
      → IsState r f
      → push_registers f from n ≡ done f'
      → IsState r f'
  unfolding push_registers
  push_registers-done zero f from {f'} w h = let same : f ≡ f' = cc h in rw (← same) w
  push_registers-done (suc n) f from w h =
      let (v, _, k) = >>=-eq-done (get_register f from) _ h in
      let (g, e, k') = >>=-eq-done _ _ k in
      push_registers-done n g (from + 1) (kept-done f v w (push f v) refl e) k'

  -- The program counter and the flags are not part of the invariant.
  pub IsState-control :
      {r : ℕ} (f : Frame D) (pc flags : ℕ)
      → IsState r f
      → IsState r (record f { pc = pc; flag_register = flags })
  IsState-control f pc flags w = record {
    base = record {
      stack_array = w.base.stack_array;
      within = w.base.within;
      present = w.base.present;
    };
    register_array = w.register_array;
  }
