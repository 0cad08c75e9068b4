-- ===== src/Api/Calls/Move.antt =====
-- `lua_xmove` of src/api_layer/lua54.c between the call states of two coroutines.
use mathlib.Core.List.{append_assoc, append-nil}
use fluffy_vm.Prelude.{
  ℕ, zero, suc, ◌+◌, ◌-◌, ◌≤◌, ◌<◌, ◌≡◌, refl, sym, ap, ◌∙◌, arith, true, false, List, [], ◌∷◌,
  ◌++◌, length, take, drop, get_or, take-drop-suc, length-append, append_inj, leb, ltb, ◌==◌,
}
use fluffy_vm.Prelude.Int.{pos}
use fluffy_vm.Prelude.Run.{done}
use fluffy_vm.Value.{Value, not_present}
use fluffy_vm.Frame.{Frame, general_stack_size}
use fluffy_vm.Frame.Laws.{contents, push_lem, pop_lem}
use fluffy_vm.Coroutine.{suspended}
use fluffy_vm.Interpreter.Ops.{kept, pop_all}
use fluffy_vm.Interpreter.Frames.{IsState, pop_all-done}
use fluffy_vm.Interpreter.Calls.{slice-append, length-contents}
use fluffy_vm.Api.{checkstack, drop_values}
use fluffy_vm.Api.Calls.{move_values, move_checked, xmove}

module _ {D : Type 0} where
  -- With room for all of them, the loop pushes the values that it reads.
  move_values-done :
      {r r' : ℕ} (from to : Frame D) (start n : ℕ)
      → IsState r from
      → IsState r' to
      → start + n ≤ from.sp
      → to.sp + n ≤ general_stack_size
      → (to' : Frame D) × (move_values from to start n ≡ done to')
        × IsState r' to'
        × (contents to' ≡ contents to ++ take n (drop start from.general_stack))
  unfolding move_values kept
  move_values-done from to start zero w w' le room = (to, refl, w', sym (append-nil (contents to)))
  move_values-done {r} {r'} from to start (suc n) w w' le room =
      let v = get_or from.general_stack start not_present in
      let (to1, pushed, base, holds, regs, sp) =
        push_lem to v w'.base (w.base.present start (omega arith)) (omega arith) in
      let w1 : IsState r' to1 = record {
        base = base;
        register_array = rw regs w'.register_array;
      } in
      let (to', rest, w2, all) =
        move_values-done from to1 (start + 1) n w w1 (omega arith) (omega (arith, sp)) in
      (
        to',
        rw pushed rest,
        w2,
        all
            ∙ ap (λ xs. xs ++ take n (drop (start + 1) from.general_stack)) holds
            ∙ append_assoc (contents to) (v ∷ []) (take n (drop (start + 1) from.general_stack))
            ∙ ap (λ xs. contents to ++ xs)
                (sym (
                  take-drop-suc from.general_stack start n not_present
                    (omega (arith, w.base.within, w.base.stack_array)))),
      )

  -- No pop fails above the bottom of the stack.
  pub pop_all-total :
      {r : ℕ} (n : ℕ) (f : Frame D)
      → IsState r f
      → n ≤ f.sp
      → (f' : Frame D) × (pop_all n f ≡ done f')
  unfolding pop_all
  pop_all-total zero f w le = (f, refl)
  pop_all-total {r} (suc n) f w le =
      let (v, g, taken, _, base, holds, regs, sp) = pop_lem f w.base (omega arith) in
      let (f', rest) =
        pop_all-total {r = r} n g
          (record { base = base; register_array = rw regs w.register_array }) (omega arith) in
      (f', rw taken rest)

  move_checked-done :
      {r r' : ℕ} (from to : Frame D) (base moved : List (Value D))
      → IsState r from
      → IsState r' to
      → contents from ≡ base ++ moved
      → to.sp + length moved ≤ general_stack_size
      → 0 < length moved
      → (from' to' : Frame D) × (move_checked from to (length moved) ≡ done (from', to'))
        × (contents from' ≡ base)
        × (contents to' ≡ contents to ++ moved)
        × IsState r from'
        × IsState r' to'
  unfolding move_checked checkstack drop_values
  move_checked-done from to base moved w w' holds room some_moved =
      let n = length moved in
      let size : from.sp ≡ length base + n =
        omega (arith, length-contents from w, ap length holds, length-append base moved) in
      let fits : leb (to.sp + 1) (length to.general_stack) ≡ true =
        rw w'.base.stack_array (ground arith) in
      let enough : ltb from.sp n ≡ false = ground arith in
      let (to', pushed, w2, all) =
        move_values-done from to (from.sp - n) n w w' (omega arith) room in
      let (from', dropped) = pop_all-total n from w (omega arith) in
      let (w1, sp1, vs, len, parts) = pop_all-done n from w dropped in
      let (same_base, same_moved) =
        append_inj (contents from') vs base moved len (sym parts ∙ holds) in
      (
        from',
        to',
        rw (fits, enough, pushed, dropped) refl,
        same_base,
        all ∙ ap (λ xs. contents to ++ xs) (slice-append from from' n vs w1 sp1 parts ∙ same_moved),
        w1,
        w2,
      )

  -- `lua_xmove` to a suspended coroutine whose stack has room for all the values: the values on top of one
  -- stack, of whatever number, are on top of the other in their order, and both stacks keep what was
  -- below and stay well formed.
  pub xmove_lem :
      {r r' : ℕ} (from to : Frame D) (base moved : List (Value D))
      → IsState r from
      → IsState r' to
      → contents from ≡ base ++ moved
      → to.sp + length moved ≤ general_stack_size
      → (from' to' : Frame D) × (xmove suspended from to (pos (length moved)) ≡ done (from', to'))
        × (contents from' ≡ base)
        × (contents to' ≡ contents to ++ moved)
        × IsState r from'
        × IsState r' to'
  unfolding xmove
  xmove_lem from to base [] w w' holds room =
      (from, to, refl, holds ∙ append-nil base, sym (append-nil (contents to)), w, w')
  xmove_lem from to base (v ∷ moved) w w' holds room =
      let positive : (length (v ∷ moved) == 0) ≡ false = ground arith in
      rw positive (move_checked-done from to base (v ∷ moved) w w' holds room (omega arith))
