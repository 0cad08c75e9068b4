-- ===== src/Interpreter/Kept.antt =====
-- Instructions of src/interpreter.c keep a call state well formed: arithmetic, comparison, closures.
use fluffy_vm.Prelude.{
  ℕ, ◌≤◌, ◌≡◌, refl, ap, not, length, get_elem?, Bool-cases, inl, inr, Option-cases,
}
use fluffy_vm.Prelude.Run.{Run, done, throw, crash, >>=-eq-done, same_result}
use fluffy_vm.Value.{Value, Host, closure}
use fluffy_vm.Value.Equal.{is_equal}
use fluffy_vm.Value.Math.{is_less}
use fluffy_vm.Value.Error.{Err}
use fluffy_vm.Frame.{Frame, set_register, get_register}
use fluffy_vm.Interpreter.Decode.{Instruction}
use fluffy_vm.Interpreter.Machine.{Proto, Vm, Outside, lift}
use fluffy_vm.Interpreter.Closures.{closure_new, closure_new_common, or_null}
use fluffy_vm.Interpreter.Ops.{Next, continue, returned, with_flag, load_prototype}
use fluffy_vm.Interpreter.Exec.{next_with, arith_op, compare}
use fluffy_vm.Interpreter.Calls.{lift-done}
use fluffy_vm.Interpreter.Frames.{IsLuaFrame, IsState-control, set_register-done}

module _ {D : Type 0} where
  -- What the loop goes on with is well formed, and inside a function of `len` instructions or at its
  -- end.
  abbrev pub IsKept : ℕ → Next D → Type 0
  IsKept len (continue vm f pc) = IsLuaFrame f × (pc ≤ len)
  IsKept len (returned vm f count) = IsLuaFrame f

  pub load_prototype-IsLuaFrame :
      (outside : Outside D) (p : Proto D) (vm : Vm D) (f : Frame D) (a b : ℕ) {vm' : Vm D}
      {f' : Frame D}
      → IsLuaFrame f
      → load_prototype outside p vm f a b ≡ done (vm', f')
      → IsLuaFrame f'
  unfolding load_prototype closure_new closure_new_common or_null
  load_prototype-IsLuaFrame outside p vm f a b {vm'} {f'} w h =
      elim (Option-cases (get_elem? p.prototypes b)) [
        | inl missing ↦ cc (rw (missing, load_prototype) at h)
        | inr (q, is) ↦ elim (Bool-cases (not (outside.closure_ok vm))) [
          | inl e ↦ cc (rw (is, e, load_prototype) at h)
          | inr e ↦
              let (g, written, h') =
                >>=-eq-done (lift vm (set_register f a (closure (length vm.closures)))) _
                  (rw (is, e, load_prototype) at h) in
              let same : g ≡ f' = ap (λ t. t.1) (same_result (done (_, g)) refl h') in
              rw (← same)
                (set_register-done f a (closure (length vm.closures)) w
                  (lift-done vm (set_register f a (closure (length vm.closures))) written)).0
        ]
      ]

module _ {D : Type 0} (host : Host D) where
  pub next_with-IsKept :
      (vm : Vm D) (pc len : ℕ) (m : Run (Err D) (Frame D)) {n : Next D}
      → next_with host vm pc m ≡ done n
      → ((g : Frame D) → m ≡ done g → IsLuaFrame g)
      → pc ≤ len
      → IsKept len n
  next_with-IsKept vm pc len (done g) {n} h k le =
      let same : continue vm g pc ≡ n = cc h in rw (← same) (k g refl, le)
  next_with-IsKept vm pc len (throw e) h k le = cc
  next_with-IsKept vm pc len (crash x) h k le = cc

  pub arith_op-IsLuaFrame :
      (op : Value D → Value D → Run (Err D) (Value D)) (ins : Instruction) (f g : Frame D)
      → IsLuaFrame f
      → arith_op host op ins f ≡ done g
      → IsLuaFrame g
  unfolding arith_op
  arith_op-IsLuaFrame op ins f g w h =
      let (x, _, h1) = >>=-eq-done (get_register f ins.field_b) _ h in
      let (y, _, h2) = >>=-eq-done (get_register f ins.field_c) _ h1 in
      let (z, _, h3) = >>=-eq-done (op x y) _ h2 in (set_register-done f ins.field_a z w h3).0

  pub compare-IsLuaFrame :
      (ins : Instruction) (f g : Frame D)
      → IsLuaFrame f
      → compare host ins f ≡ done g
      → IsLuaFrame g
  unfolding compare
  compare-IsLuaFrame ins f g w h =
      let (x, _, h1) = >>=-eq-done (get_register f ins.field_a) _ h in
      let (y, _, h2) = >>=-eq-done (get_register f ins.field_b) _ h1 in
      let (e, _, h3) = >>=-eq-done (is_equal host x y) _ h2 in
      let (l, _, h4) = >>=-eq-done (is_less host x y) _ h3 in
      let flags : ℕ = with_flag (with_flag f.flag_register 1 e) 2 l in
      let same : record f { flag_register = flags } ≡ g =
        same_result (done (record f { flag_register = flags })) refl h4 in
      rw (← same) (IsState-control f f.pc flags w)
