-- ===== src/Interpreter/Calls.antt =====
-- CALL of src/interpreter.c: what the callee gets, and what the caller has when it is back.
use fluffy_vm.Prelude.{
  ℕ, zero, suc, ◌+◌, ◌-◌, ◌<◌, ◌≡◌, refl, ap, ◌∙◌, arith, Bool, true, false, not, List, [], ◌++◌,
  none, some, ltb, leb, length, get_elem?, take, drop, take-drop, drop-append, length-take,
  Bool-cases, inl, inr, Option-cases, sym, ◌∷◌,
}
use fluffy_vm.Prelude.Run.{Run, done, throw, crash, >>=-eq-done, same_result}
use fluffy_vm.Value.{Value, closure}
use fluffy_vm.Value.Error.{Err}
use fluffy_vm.Frame.{Frame, get_register, fresh}
use fluffy_vm.Frame.Laws.{contents, fresh-IsFrame}
use fluffy_vm.Interpreter.Machine.{Vm, Stop, Outside, lift}
use fluffy_vm.Interpreter.Ops.{
  call, callable, prolog, push_all, pop_all, or_abort, results_from, arg_count, return_count,
  call_stack_size,
}
use fluffy_vm.Interpreter.Results.{
  padded, returned_values, empty_of_length, AreArguments, IsCount, results_from-padded,
  push_all-closure, callable-done,
}
use fluffy_vm.Interpreter.Frames.{IsState, push_all-done, pop_all-done}

module _ {D : Type 0} where
  pub lift-done :
      {A : Type 0} (vm : Vm D) (m : Run (Err D) A) {a : A} → lift vm m ≡ done a → m ≡ done a
  lift-done vm (done a) h = cc
  lift-done vm (throw e) h = cc
  lift-done vm (crash x) h = cc

  or_abort-done : {A : Type 0} (m : Run (Err D) A) {a : A} → or_abort m ≡ done a → m ≡ done a
  unfolding or_abort
  or_abort-done (done a) h = cc
  or_abort-done (throw e) h = cc
  or_abort-done (crash x) h = cc

  pub length-results_from : (g : Frame D) (start n : ℕ) → length (results_from g start n) ≡ n
  unfolding results_from
  length-results_from g start zero = refl
  length-results_from g start (suc n) = ap suc (length-results_from g (start + 1) n)

  pub length-contents : {r : ℕ} (f : Frame D) → IsState r f → length (contents f) ≡ f.sp
  length-contents f w =
      omega (arith, length-take f.sp f.general_stack, w.base.stack_array, w.base.within)

  -- A new call state has an empty stack.
  pub prolog-done :
      (outside : Outside D) (depth : ℕ) (vm : Vm D) (id : ℕ) {g : Frame D}
      → prolog outside depth vm id ≡ done g
      → (r : ℕ) × IsState r g × (contents g ≡ []) × (depth < call_stack_size) × (g.closure_id ≡ id)
  unfolding prolog
  prolog-done outside depth vm id {g} h = elim (Bool-cases (not (outside.call_state_ok vm))) [
    | inl e ↦ cc (rw e at h)
    | inr e ↦ elim (Bool-cases (leb call_stack_size depth)) [
      | inl full ↦ cc (rw (e, full) at h)
      | inr room ↦ elim (Option-cases (get_elem? vm.closures id)) [
        | inl missing ↦ cc (rw (e, room, missing) at h)
        | inr (c, is) ↦
            let is_native : Bool = elim c.prototype [ none ↦ true | some p ↦ false ] in
            let same : fresh is_native id c.env ≡ g = cc (rw (e, room, is) at h) in
            let (base, empty) = fresh-IsFrame is_native id c.env in
            rw (← same) (
              length (fresh is_native id c.env).registers,
              record { base = base; register_array = refl },
              empty,
              ground arith,
              refl,
            )
      ]
    ]
  ]

  -- The top values of a stack, as the copying loop of CALL reads them.
  pub slice-append :
      {r : ℕ} (f f' : Frame D) (n : ℕ) (vs : List (Value D))
      → IsState r f'
      → f'.sp + n ≡ f.sp
      → contents f ≡ contents f' ++ vs
      → take n (drop (f.sp - n) f.general_stack) ≡ vs
  slice-append f f' n vs w' sp holds =
      take-drop n (f.sp - n) f.sp f.general_stack (omega arith)
      ∙ ap (λ (xs : List (Value D)). drop (f.sp - n) xs) holds
      ∙ ap (λ (k : ℕ). drop k (contents f' ++ vs)) (omega (arith, length-contents f' w'))
      ∙ drop-append (contents f') vs

  -- What a call that returns leaves: `id` is the closure in register A, `base` and `args` are the caller's stack before it,
  -- `g` the call state that the callee was entered with, `g'` the one it left with `count` results, and
  -- `results` what the caller got.
  pub record IsCall (callee : Vm D → Frame D → Run (Stop D) (Vm D × Frame D × ℕ)) (f f' : Frame D)
      (a b c : ℕ) (vm vm' : Vm D) (id : ℕ) (base args results : List (Value D)) (g g' : Frame D)
      (count : ℕ) : Type 0 where
    pub register : get_register f a ≡ done (closure id)
    pub entered : g.closure_id ≡ id
    pub before : contents f ≡ base ++ args
    pub arity : AreArguments c base args
    pub entry : contents g ≡ args
    pub ran : callee vm g ≡ done (vm', g', count)
    pub number : IsCount b g'.sp (length results)
    pub values : results ≡ padded (length results) (returned_values g' count)
    pub after : contents f' ≡ base ++ results

  arguments :
      {r : ℕ} (f f1 : Frame D) (c : ℕ) (args : List (Value D))
      → IsState r f1
      → f1.sp + arg_count f c ≡ f.sp
      → length args ≡ arg_count f c
      → AreArguments c (contents f1) args
  unfolding arg_count
  arguments f f1 zero [] w sp len = refl
  arguments f f1 zero (v ∷ vs) w sp len = absurd (omega arith)
  arguments f f1 (suc zero) args w sp len =
      empty_of_length (contents f1) f.sp f.sp (omega (arith, length-contents f1 w)) refl
  arguments f f1 (suc (suc n)) args w sp len = len

  counted : (g : Frame D) (b n : ℕ) → n ≡ return_count g b → IsCount b g.sp n
  unfolding return_count
  counted g zero n e = e
  counted g (suc zero) n e = e
  counted g (suc (suc b)) n e = e

  assemble :
      {r rg : ℕ} (callee : Vm D → Frame D → Run (Stop D) (Vm D × Frame D × ℕ)) (vm vm1 vm' : Vm D)
      (f f1 f2 f' g0 g g' : Frame D) (a b c id count : ℕ)
      → IsState r f
      → IsState rg g0
      → contents g0 ≡ []
      → g0.closure_id ≡ id
      → get_register f a ≡ done (closure id)
      → push_all g0 (take (arg_count f c) (drop (f.sp - arg_count f c) f.general_stack)) ≡ done g
      → callee vm g ≡ done (vm1, g', count)
      → pop_all (arg_count f c) f ≡ done f1
      → push_all f1 (results_from g' (g'.sp - count) (return_count g' b)) ≡ done f2
      → ◌≡◌ {A = Vm D × Frame D} (vm1, f2) (vm', f')
      → IsState r f'
        × (base args results : List (Value D)) × IsCall callee f f' a b c vm vm' id base args
            results g g' count
  assemble callee vm vm1 vm' f f1 f2 f' g0 g g' a b c id count w wg0 empty own read copied ran
        popped returned both =
      let n = arg_count f c in
      let slice : List (Value D) = take n (drop (f.sp - n) f.general_stack) in
      let k = return_count g' b in
      let results : List (Value D) = results_from g' (g'.sp - count) k in
      let many : length results ≡ k = length-results_from g' (g'.sp - count) k in
      let (wg, on_g, _) = push_all-done g0 slice wg0 copied in
      let (wf1, sp1, args, len, holds) = pop_all-done n f w popped in
      let (wf2, result, _) = push_all-done f1 results wf1 returned in
      let same_vm : vm1 ≡ vm' = ap (λ t. t.0) both in
      let same_f : f2 ≡ f' = ap (λ t. t.1) both in
      (
        rw (← same_f) wf2,
        contents f1,
        args,
        results,
        record {
          register = read;
          entered = push_all-closure g0 slice copied ∙ own;
          before = holds;
          arity = arguments f f1 c args wf1 sp1 len;
          entry =
              on_g
              ∙ ap (λ (xs : List (Value D)). xs ++ slice) empty
              ∙ slice-append f f1 n args wf1 sp1 holds;
          ran = ran ∙ ap (λ (m : Vm D). done (m, g', count)) same_vm;
          number = counted g' b (length results) many;
          values =
              results_from-padded g' f1 (g'.sp - count) k returned
              ∙ ap (λ (m : ℕ). padded m (returned_values g' count)) (sym many);
          after = rw (← same_f) result;
        },
      )

  -- A call that returns, whatever the callee does. The closure that was entered is the one in register A. Its stack
  -- held exactly the arguments: none for a C of 0, the caller's whole stack for 1, else the top C - 1
  -- values. They are gone from the caller's stack, which has results in their place: none for a B of 0, as
  -- many as the callee's stack holds values for 1, else B - 1. The results are those that the callee
  -- returned, and nil where it returned fewer. The caller is well formed, and the call stack had
  -- room.
  pub call_lem :
      {r : ℕ} (outside : Outside D) (callee : Vm D → Frame D → Run (Stop D) (Vm D × Frame D × ℕ))
      (depth : ℕ) (vm : Vm D) (f : Frame D) (a b c : ℕ) {vm' : Vm D} {f' : Frame D}
      → IsState r f
      → call outside callee depth vm f a b c ≡ done (vm', f')
      → (g g' : Frame D) × (id count : ℕ) × (depth < call_stack_size)
        × IsState r f'
        × (base args results : List (Value D)) × IsCall callee f f' a b c vm vm' id base args
            results g g' count
  unfolding call
  call_lem outside callee depth vm f a b c {vm'} {f'} w h = elim (Bool-cases (ltb f.sp n)) [
    | inl under ↦ cc (rw under at h)
    | inr enough ↦
        let (v, read, h1) = >>=-eq-done (lift vm (get_register f a)) _ (rw enough at h) in
        let (id, called, h2) = >>=-eq-done (lift vm (callable v)) _ h1 in
        let (g0, entered, h3) = >>=-eq-done (prolog outside depth vm id) _ h2 in
        let (g, copied, h4) = >>=-eq-done (lift vm (push_all g0 slice)) _ h3 in
        let ((vm1, g', count), ran, h5) = >>=-eq-done (callee vm g) _ h4 in
        let (f1, popped, h6) = >>=-eq-done (or_abort (pop_all n f)) _ h5 in
        let results : List (Value D) = results_from g' (g'.sp - count) (return_count g' b) in
        let (f2, returned, h7) = >>=-eq-done (lift vm1 (push_all f1 results)) _ h6 in
        let (_, wg0, empty, deep, own) = prolog-done outside depth vm id entered in
        let is_closure = callable-done v (lift-done vm (callable v) called) in
        let (w', base, args, got, is) =
          assemble callee vm vm1 vm' f f1 f2 f' g0 g g' a b c id count w wg0 empty own
            (lift-done vm (get_register f a) read ∙ ap done is_closure)
            (lift-done vm (push_all g0 slice) copied) ran (or_abort-done (pop_all n f) popped)
            (lift-done vm1 (push_all f1 results) returned) (same_result (done (vm1, f2)) refl h7) in
        (g, g', id, count, deep, w', base, args, got, is)
  ]
    where
      n : ℕ
      n = arg_count f c

      slice : List (Value D)
      slice = take n (drop (f.sp - n) f.general_stack)
