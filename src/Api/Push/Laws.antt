-- ===== src/Api/Push/Laws.antt =====
-- `lua_setfield` of src/api_layer/lua54.c: from the stack to the table and back.
use fluffy_vm.Prelude.{
  ℕ, ◌+◌, ◌-◌, ◌≡◌, refl, sym, ap, ◌∙◌, arith, true, false, List, [], ◌∷◌, ◌++◌, length, get_or,
  get_or-take, leb, ltb, length-append,
}
use fluffy_vm.Prelude.Int.{negsuc}
use fluffy_vm.Prelude.Run.{done}
use fluffy_vm.Value.{Value, not_present}
use fluffy_vm.Frame.{Frame, peek}
use fluffy_vm.Frame.Laws.{contents}
use fluffy_vm.Interpreter.Frames.{IsState}
use fluffy_vm.Interpreter.Calls.{length-contents}
use fluffy_vm.Api.{absindex, value_at, is_pseudo}

get_or-snoc : {A : Type 0} (xs : List A) (v d : A) → get_or (xs ++ v ∷ []) (length xs) d ≡ v
get_or-snoc [] v d = refl
get_or-snoc (x ∷ xs) v d = get_or-snoc xs v d

module _ {D : Type 0} where
  -- The value at -1 is the one on top.
  pub value_at-top :
      {r : ℕ} (f : Frame D) (below : List (Value D)) (v : Value D)
      → IsState r f
      → contents f ≡ below ++ v ∷ []
      → value_at f (negsuc 0) ≡ done v
  unfolding value_at absindex peek is_pseudo
  value_at-top f below v w holds =
      let size : f.sp ≡ length below + 1 =
        omega (arith, length-contents f w, ap length holds, length-append below (v ∷ [])) in
      let top : get_or f.general_stack (f.sp - 0 - 1) not_present ≡ v =
        ap (λ (i : ℕ). get_or f.general_stack i not_present) (omega (arith, size))
        ∙ sym (get_or-take f.general_stack f.sp (length below) not_present (omega (arith, size)))
        ∙ ap (λ xs. get_or xs (length below) not_present) holds
        ∙ get_or-snoc below v not_present in
      let inside : leb f.sp 0 ≡ false = ground (arith, size) in
      let below_top : ltb (f.sp - 0 - 1) f.sp ≡ true = ground (arith, size) in
      rw (inside, below_top, top) refl
