-- ===== src/Api/Calls/Laws.antt =====
-- What `lua_call` and `lua_xmove` of src/api_layer/lua54.c leave on the stacks.
use mathlib.Core.List.{append_assoc}
use fluffy_vm.Prelude.{
  ℕ, ◌+◌, ◌≡◌, refl, sym, ap, ◌∙◌, arith, List, [], ◌∷◌, ◌++◌, length, length-append, suc, get_or,
  get_or-take, ltb, true, append_inj,
}
use fluffy_vm.Prelude.Int.{ℤ, pos, ◌+ℤ◌, ◌-ℤ◌}
use fluffy_vm.Prelude.Run.{Run, done, >>=-eq-done, same_result}
use fluffy_vm.Value.{Value, not_present, closure}
use fluffy_vm.Frame.{Frame, peek}
use fluffy_vm.Frame.Laws.{contents}
use fluffy_vm.Interpreter.Machine.{Vm, Stop, Outside, lift}
use fluffy_vm.Interpreter.Frames.{IsState}
use fluffy_vm.Interpreter.Calls.{lift-done, length-contents}
use fluffy_vm.Interpreter.Results.{padded, returned_values, IsNativeCount}
use fluffy_vm.Interpreter.Native.{native_call}
use fluffy_vm.Interpreter.Native.Laws.{IsNativeCall, native_call_lem}
use fluffy_vm.Api.{remove_value}
use fluffy_vm.Api.Laws.{remove_value_lem}
use fluffy_vm.Api.Calls.{check_counts, lua_call}

-- `funcPosition`, and the place of the function for `lua_rotate`.
function_place : (sp b n : ℕ) → sp ≡ b + (1 + n) → pos sp -ℤ pos n -ℤ pos 1 ≡ pos b
function_place sp b n h = ground arith

function_place_next : (b : ℕ) → pos b +ℤ pos 1 ≡ pos (b + 1)
function_place_next b = ground arith

get_or-middle : {A : Type 0} (xs ys : List A) (v d : A) → get_or (xs ++ v ∷ ys) (length xs) d ≡ v
get_or-middle [] ys v d = refl
get_or-middle (x ∷ xs) ys v d = get_or-middle xs ys v d

module _ {D : Type 0} where
  -- Reading the value with `below` under it.
  pub peek-slot :
      {r : ℕ} (f : Frame D) (below above : List (Value D)) (v : Value D) (i : ℕ)
      → IsState r f
      → contents f ≡ below ++ v ∷ above
      → i ≡ length below
      → peek f (pos i) ≡ done v
  unfolding peek
  peek-slot f below above v i w holds at =
      let size : f.sp ≡ length below + suc (length above) =
        omega (arith, length-contents f w, ap length holds, length-append below (v ∷ above)) in
      let inside : ltb i f.sp ≡ true = ground (arith, size) in
      let there : get_or f.general_stack i not_present ≡ v =
        sym (get_or-take f.general_stack f.sp i not_present (omega (arith, size)))
        ∙ ap (λ xs. get_or xs i not_present) holds
        ∙ ap (λ (k : ℕ). get_or (below ++ v ∷ above) k not_present) at
        ∙ get_or-middle below above v not_present in
      rw (inside, there) refl

  -- What a call of the function `func` that returns leaves, with the same names as for `IsNativeCall`.
  pub record IsLuaCall (callee : Vm D → Frame D → Run (Stop D) (Vm D × Frame D × ℕ)) (f' : Frame D)
      (func : Value D) (nresults : ℤ) (vm vm' : Vm D) (id : ℕ) (base args results : List (Value D))
      (g g' : Frame D) (count : ℕ) : Type 0 where
    pub is_closure : func ≡ closure id
    pub entered : g.closure_id ≡ id
    pub entry : contents g ≡ args
    pub ran : callee vm g ≡ done (vm', g', count)
    pub number : IsNativeCount nresults g'.sp (length results)
    pub values : results ≡ padded (length results) (returned_values g' count)
    pub after : contents f' ≡ base ++ results

  -- The function leaves the stack under its results.
  finish :
      {r : ℕ} (callee : Vm D → Frame D → Run (Stop D) (Vm D × Frame D × ℕ)) (vm vm1 vm' : Vm D)
      (f f1 f2 f' : Frame D) (base args base1 args1 results : List (Value D)) (func : Value D)
      (nresults : ℤ) (g g' : Frame D) (id count : ℕ) (position : ℤ)
      → position ≡ pos (length base)
      → IsState r f1
      → IsNativeCall callee f f1 func
          (length args)
          nresults
          vm
          vm1
          id
          base1
          args1
          results
          g
          g'
          count
      → contents f ≡ base ++ func ∷ args
      → remove_value f1 (position +ℤ pos 1) ≡ done f2
      → ◌≡◌ {A = Vm D × Frame D} (vm1, f2) (vm', f')
      → IsLuaCall callee f' func nresults vm vm' id base args results g g' count × IsState r f'
  finish callee vm vm1 vm' f f1 f2 f' base args base1 args1 results func nresults g g' id count
        position at w1 is holds removed both =
      let (below, same_args) =
        append_inj base1 args1 (base ++ func ∷ []) args is.arity
          (sym is.before ∙ holds ∙ sym (append_assoc base (func ∷ []) args)) in
      let now : contents f1 ≡ base ++ func ∷ results =
        is.after
        ∙ ap (λ (xs : List (Value D)). xs ++ results) below
        ∙ append_assoc base (func ∷ []) results in
      let place : position +ℤ pos 1 ≡ pos (length base + 1) =
        ap (λ z. z +ℤ pos 1) at ∙ function_place_next (length base) in
      let (f3, removed', w3, left) = remove_value_lem f1 base results func w1 now in
      let same : f3 ≡ f' =
        same_result (remove_value f1 (position +ℤ pos 1))
          (ap (λ z. remove_value f1 z) place ∙ removed') removed
        ∙ ap (λ t. t.1) both in
      let same_vm : vm1 ≡ vm' = ap (λ t. t.0) both in
      (
        record {
          is_closure = is.is_closure;
          entered = is.entered;
          entry = is.entry ∙ same_args;
          ran = is.ran ∙ ap (λ (m : Vm D). done (m, g', count)) same_vm;
          number = is.number;
          values = is.values;
          after = rw (← same) left;
        },
        rw (← same) w3,
      )

  -- `lua_call` that returns. The value under the arguments is the closure that was entered, whose stack held the
  -- arguments alone. In place of the function and the arguments the caller's stack holds results: as many
  -- as `nresults`, or, for LUA_MULTRET, as the callee's stack holds values. They are those that the callee
  -- returned, and nil where it returned fewer. What was below is there still, in a well-formed call state.
  pub lua_call_lem :
      {r : ℕ} (outside : Outside D) (callee : Vm D → Frame D → Run (Stop D) (Vm D × Frame D × ℕ))
      (depth : ℕ) (vm : Vm D) (f : Frame D) (base args : List (Value D)) (func : Value D)
      (nresults : ℤ) {vm' : Vm D} {f' : Frame D}
      → IsState r f
      → contents f ≡ base ++ func ∷ args
      → lua_call outside callee depth vm f (pos (length args)) nresults ≡ done (vm', f')
      → (g g' : Frame D) × (id count : ℕ) × (results : List (Value D)) × IsLuaCall callee f' func
          nresults vm vm' id base args results g g' count
        × IsState r f'
  unfolding lua_call
  lua_call_lem outside callee depth vm f base args func nresults {vm'} {f'} w holds h =
      let n = length args in
      let position = pos f.sp -ℤ pos n -ℤ pos 1 in
      let size : f.sp ≡ length base + (1 + n) =
        omega (arith, length-contents f w, ap length holds, length-append base (func ∷ args)) in
      let at = function_place f.sp (length base) n size in
      let found : peek f position ≡ done func =
        ap (λ z. peek f z) at ∙ peek-slot f base args func (length base) w holds refl in
      let (_, _, h1) = >>=-eq-done (lift vm (check_counts (pos n) nresults)) _ h in
      let (v, read, h2) = >>=-eq-done (lift vm (peek f position)) _ h1 in
      let is_func : v ≡ func =
        same_result (peek f position) (lift-done vm (peek f position) read) found in
      let ((vm1, f1), called, h3) =
        >>=-eq-done (native_call outside callee depth vm f v (pos n) nresults) _ h2 in
      let (f2, removed, h4) = >>=-eq-done (lift vm1 (remove_value f1 (position +ℤ pos 1))) _ h3 in
      let (g, g', id, count, _, w1, base1, args1, results, is) =
        native_call_lem outside callee depth vm f func n nresults w (omega (arith, size)) (
          ap (λ (u : Value D). native_call outside callee depth vm f u (pos n) nresults)
            (sym is_func)
          ∙ called) in
      let (all, w') =
        finish callee vm vm1 vm' f f1 f2 f' base args base1 args1 results func nresults g g' id
          count position at w1 is holds (lift-done vm1 _ removed)
          (same_result (done (vm1, f2)) refl h4) in
      (g, g', id, count, results, all, w')
