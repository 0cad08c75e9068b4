-- ===== src/Interpreter/Native/Laws.antt =====
-- What `interpreter_call` of src/interpreter.c leaves on the caller's stack.
use mathlib.Core.Path.{fun_ext}
use fluffy_vm.Prelude.{
  ℕ, zero, suc, ◌+◌, ◌-◌, ◌≤◌, ◌<◌, ◌≡◌, refl, sym, ap, ◌∙◌, arith, List, [], ◌++◌, length, get_or,
  take, drop, take-drop-suc,
}
use fluffy_vm.Prelude.Int.{ℤ, pos, negsuc}
use fluffy_vm.Prelude.Run.{Run, done, ◌>>=◌, >>=-eq-done, same_result}
use fluffy_vm.Value.{Value, not_present, closure}
use fluffy_vm.Value.Error.{Err}
use fluffy_vm.Frame.{Frame, push}
use fluffy_vm.Frame.Laws.{contents, pop_lem}
use fluffy_vm.Interpreter.Machine.{Vm, Stop, Outside, lift}
use fluffy_vm.Interpreter.Ops.{prolog, push_all, pop_all, results_from, call_stack_size}
use fluffy_vm.Interpreter.Frames.{IsState, push_all-done, pop_all-done}
use fluffy_vm.Interpreter.Results.{
  padded, returned_values, IsNativeCount, results_from-padded, push_all-closure,
}
use fluffy_vm.Interpreter.Calls.{lift-done, prolog-done, slice-append, length-results_from}
use fluffy_vm.Interpreter.Native.{
  closure_of, stack_slot, copy_args, pop_each, remove_args, native_return_count, native_call,
}

module _ {D : Type 0} where
  stack_slot-done :
      {r : ℕ} (f : Frame D) (i : ℕ)
      → IsState r f
      → i < f.sp
      → stack_slot f i ≡ done (get_or f.general_stack i not_present)
  unfolding stack_slot
  stack_slot-done f i w h = ground (arith, w.base.within)

  -- Below the stack pointer, the copying loop pushes the slots that it reads.
  copy_args-push_all :
      {r : ℕ} (f g : Frame D) (start n : ℕ)
      → IsState r f
      → start + n ≤ f.sp
      → copy_args f g start n ≡ push_all g (take n (drop start f.general_stack))
  unfolding copy_args push_all
  copy_args-push_all f g start zero w h = refl
  copy_args-push_all f g start (suc n) w h =
      let v = get_or f.general_stack start not_present in
      rw
        (
          stack_slot-done f start w (omega arith),
          take-drop-suc f.general_stack start n not_present
              (omega (arith, w.base.within, w.base.stack_array)),
        )
        (ap (λ (k : Frame D → Run (Err D) (Frame D)). push g v >>= k)
          (fun_ext (λ g'. copy_args-push_all f g' (start + 1) n w (omega arith))))

  -- Above the bottom of the stack, no pop fails.
  remove_args-pop_all :
      {r : ℕ} (n : ℕ) (f : Frame D) → IsState r f → n ≤ f.sp → remove_args n f ≡ pop_all n f
  unfolding remove_args pop_each pop_all
  remove_args-pop_all zero f w h = refl
  remove_args-pop_all {r} (suc n) f w h =
      let (u, g, taken, _, base, holds, regs, sp) = pop_lem f w.base (omega arith) in
      rw taken (
        remove_args-pop_all {r = r} n g
          (record { base = base; register_array = rw regs w.register_array }) (omega arith))

  -- What a call from C that returns leaves: `id` is the closure `func`, `base` and `args` are the caller's stack before
  -- it, `g` the call state that the callee was entered with, `g'` the one it left with `count` results, and
  -- `results` what the caller got.
  pub record IsNativeCall (callee : Vm D → Frame D → Run (Stop D) (Vm D × Frame D × ℕ))
      (f f' : Frame D) (func : Value D) (n : ℕ) (nret : ℤ) (vm vm' : Vm D) (id : ℕ)
      (base args results : List (Value D)) (g g' : Frame D) (count : ℕ) : Type 0 where
    pub is_closure : func ≡ closure id
    pub entered : g.closure_id ≡ id
    pub before : contents f ≡ base ++ args
    pub arity : length args ≡ n
    pub entry : contents g ≡ args
    pub ran : callee vm g ≡ done (vm', g', count)
    pub number : IsNativeCount nret g'.sp (length results)
    pub values : results ≡ padded (length results) (returned_values g' count)
    pub after : contents f' ≡ base ++ results

  counted :
      (g : Frame D) (nret : ℤ) (n : ℕ) → n ≡ native_return_count g nret → IsNativeCount nret g.sp n
  unfolding native_return_count
  counted g (pos k) n e = e
  counted g (negsuc zero) n e = e
  counted g (negsuc (suc k)) n e = e

  closure_of-done : (v : Value D) {id : ℕ} → closure_of v ≡ done id → v ≡ closure id
  unfolding closure_of
  closure_of-done (closure c) {id} h = let same : c ≡ id = cc in ap closure same
  closure_of-done _ h = cc

  assemble :
      {r rg : ℕ} (callee : Vm D → Frame D → Run (Stop D) (Vm D × Frame D × ℕ)) (vm vm1 vm' : Vm D)
      (f f1 f2 f' g0 g g' : Frame D) (func : Value D) (n id count : ℕ) (nret : ℤ)
      → IsState r f
      → IsState rg g0
      → n ≤ f.sp
      → contents g0 ≡ []
      → g0.closure_id ≡ id
      → func ≡ closure id
      → copy_args f g0 (f.sp - n) n ≡ done g
      → remove_args n f ≡ done f1
      → callee vm g ≡ done (vm1, g', count)
      → push_all f1 (results_from g' (g'.sp - count) (native_return_count g' nret)) ≡ done f2
      → ◌≡◌ {A = Vm D × Frame D} (vm1, f2) (vm', f')
      → IsState r f'
        × (base args results : List (Value D)) × IsNativeCall callee f f' func n nret vm vm' id base
            args results g g' count
  assemble callee vm vm1 vm' f f1 f2 f' g0 g g' func n id count nret w wg0 le empty own is copied
        removed ran returned both =
      let slice : List (Value D) = take n (drop (f.sp - n) f.general_stack) in
      let k = native_return_count g' nret in
      let results : List (Value D) = results_from g' (g'.sp - count) k in
      let many : length results ≡ k = length-results_from g' (g'.sp - count) k in
      let pushed = sym (copy_args-push_all f g0 (f.sp - n) n w (omega arith)) ∙ copied in
      let (wg, on_g, _) = push_all-done g0 slice wg0 pushed in
      let (wf1, sp1, args, len, holds) =
        pop_all-done n f w (sym (remove_args-pop_all n f w le) ∙ removed) in
      let (wf2, result, _) = push_all-done f1 results wf1 returned in
      let same_vm : vm1 ≡ vm' = ap (λ t. t.0) both in
      let same_f : f2 ≡ f' = ap (λ t. t.1) both in
      (
        rw (← same_f) wf2,
        contents f1,
        args,
        results,
        record {
          is_closure = is;
          entered = push_all-closure g0 slice pushed ∙ own;
          before = holds;
          arity = len;
          entry =
              on_g
              ∙ ap (λ (xs : List (Value D)). xs ++ slice) empty
              ∙ slice-append f f1 n args wf1 sp1 holds;
          ran = ran ∙ ap (λ (m : Vm D). done (m, g', count)) same_vm;
          number = counted g' nret (length results) many;
          values =
              results_from-padded g' f1 (g'.sp - count) k returned
              ∙ ap (λ (m : ℕ). padded m (returned_values g' count)) (sym many);
          after = rw (← same_f) result;
        },
      )

  -- `interpreter_call` that returns: the callee was entered with the top `n` values of the caller's stack
  -- as its whole stack, and the caller's stack is what was below them, and the results that `nret` asks
  -- for: those that the callee returned, and nil where it returned fewer.
  pub native_call_lem :
      {r : ℕ} (outside : Outside D) (callee : Vm D → Frame D → Run (Stop D) (Vm D × Frame D × ℕ))
      (depth : ℕ) (vm : Vm D) (f : Frame D) (func : Value D) (n : ℕ) (nret : ℤ) {vm' : Vm D}
      {f' : Frame D}
      → IsState r f
      → n ≤ f.sp
      → native_call outside callee depth vm f func (pos n) nret ≡ done (vm', f')
      → (g g' : Frame D) × (id count : ℕ) × (depth < call_stack_size)
        × IsState r f'
        × (base args results : List (Value D)) × IsNativeCall callee f f' func n nret vm vm' id base
            args results g g' count
  unfolding native_call
  native_call_lem outside callee depth vm f func n nret {vm'} {f'} w le h =
      let (id, is, h1) = >>=-eq-done (lift vm (closure_of func)) _ h in
      let (g0, entered, h2) = >>=-eq-done (prolog outside depth vm id) _ h1 in
      let (g, copied, h3) = >>=-eq-done (lift vm (copy_args f g0 (f.sp - n) n)) _ h2 in
      let (f1, removed, h4) = >>=-eq-done (lift vm (remove_args n f)) _ h3 in
      let ((vm1, g', count), ran, h5) = >>=-eq-done (callee vm g) _ h4 in
      let (f2, returned, h6) =
        >>=-eq-done
          (lift vm1 (push_all f1 (results_from g' (g'.sp - count) (native_return_count g' nret)))) _
          h5 in
      let (_, wg0, empty, deep, own) = prolog-done outside depth vm id entered in
      let (w', base, args, got, all) =
        assemble callee vm vm1 vm' f f1 f2 f' g0 g g' func n id count nret w wg0 le empty own
          (closure_of-done func (lift-done vm (closure_of func) is))
          (lift-done vm (copy_args f g0 (f.sp - n) n) copied)
          (lift-done vm (remove_args n f) removed) ran (lift-done vm1 _ returned)
          (same_result (done (vm1, f2)) refl h6) in
      (g, g', id, count, deep, w', base, args, got, all)
