-- ===== src/Api/Functions/Resume.antt =====
-- `lua_resume` and the function that a new coroutine runs, in src/api_layer/lua54.c.
use mathlib.Core.List.{append_assoc}
use fluffy_vm.Prelude.{
  ℕ, suc, ◌+◌, ◌-◌, ◌≤◌, ◌%◌, ◌≡◌, ◌≢◌, refl, sym, ap, ◌∙◌, arith, true, false, List, [], ◌∷◌, ◌++◌,
  Option, some, length, leb, ltb, length-append, append_inj,
}
use fluffy_vm.Prelude.Int.{pos, negsuc, ◌+ℤ◌, to_signed, word}
use fluffy_vm.Prelude.Run.{Run, done, ◌>>=◌, >>=-eq-done, same_result}
use fluffy_vm.Value.{Value, Host, Str, Userdata, long, closure, light_userdata}
use fluffy_vm.Value.Math.{to_double}
use fluffy_vm.Value.Kind.{get_unique_ptr}
use fluffy_vm.Value.New.{Allocations, Cells, write_cell}
use fluffy_vm.Value.New.Laws.{light}
use fluffy_vm.Frame.{Frame, general_stack_size}
use fluffy_vm.Frame.Laws.{contents, push_lem}
use fluffy_vm.Interpreter.Machine.{Vm, Stop, Outside}
use fluffy_vm.Interpreter.Ops.{kept}
use fluffy_vm.Interpreter.Frames.{IsState, pop_all-done}
use fluffy_vm.Interpreter.Calls.{length-contents}
use fluffy_vm.Interpreter.Results.{padded, returned_values}
use fluffy_vm.Api.{value_at, absindex, is_pseudo, checkstack, drop_values, gettop}
use fluffy_vm.Api.Calls.{lua_call}
use fluffy_vm.Api.Calls.Laws.{lua_call_lem, peek-slot}
use fluffy_vm.Api.Calls.Move.{pop_all-total}
use fluffy_vm.Api.Push.{pushlightuserdata, pushinteger, push_fitting}
use fluffy_vm.Api.Query.{
  topointer, tonumberx, isfunction, has_type, lua_type, is_outside, type_of, is_type,
  number_or_none,
}
use fluffy_vm.Api.Functions.{stage, trampoline, report}
use fluffy_vm.Api.Functions.Laws.{ensured}

written : (a w : ℕ) (cells : Cells) → write_cell a w cells a ≡ w
written a w cells = ground arith

kept_cell : (a b w : ℕ) (cells : Cells) → b ≢ a → write_cell a w cells b ≡ cells b
kept_cell a b w cells differ = ground (arith, differ)

module _ {D : Type 0} where
  -- The value with `above` on it.
  value_at-under :
      {r : ℕ} (f : Frame D) (below above : List (Value D)) (v : Value D) (k : ℕ)
      → IsState r f
      → contents f ≡ below ++ v ∷ above
      → k ≡ length above
      → value_at f (negsuc k) ≡ done v
  unfolding value_at absindex is_pseudo
  value_at-under f below above v k w holds at =
      let size : f.sp ≡ length below + suc (length above) =
        omega (arith, length-contents f w, ap length holds, length-append below (v ∷ above)) in
      let inside : leb f.sp k ≡ false = ground (arith, size) in
      rw (inside, peek-slot f below above v (f.sp - k - 1) w holds (omega (arith, size))) refl

  value_at-first :
      {r : ℕ} (f : Frame D) (above : List (Value D)) (v : Value D)
      → IsState r f
      → contents f ≡ v ∷ above
      → value_at f (pos 1) ≡ done v
  unfolding value_at absindex is_pseudo
  value_at-first f above v w holds =
      let size : f.sp ≡ suc (length above) = omega (arith, length-contents f w, ap length holds) in
      let inside : ltb f.sp 1 ≡ false = ground (arith, size) in
      rw (inside, peek-slot f [] above v 0 w holds refl) refl

  fits_eight :
      {r : ℕ} (f : Frame D) (n : ℕ)
      → IsState r f
      → f.sp + (8 + n) ≤ general_stack_size
      → checkstack f (pos 8 +ℤ pos n) ≡ done true
  unfolding checkstack
  fits_eight f n w fits =
      let sum : pos 8 +ℤ pos n ≡ pos (8 + n) = ground arith in
      let enough : leb (f.sp + (8 + n)) (length f.general_stack) ≡ true =
        rw w.base.stack_array (ground arith) in
      rw (sum, enough) refl

  -- Two values that are pushed, of which the first is a light userdata.
  record IsStaged (r : ℕ) (g g' : Frame D) (u : Userdata) (w : ℕ) : Type 0 where
    state : IsState r g'
    holds : contents g' ≡ contents g ++ light_userdata u ∷ long w ∷ []

  staged :
      {r r' : ℕ} (m : Allocations D) (cells : Cells) (module_id nresults n p o b : ℕ)
      (f g : Frame D)
      → IsState r f
      → IsState r' g
      → f.sp + (8 + n) ≤ general_stack_size
      → g.sp + 2 ≤ general_stack_size
      → (m.malloc ≡ some p) × (m.object ≡ some o) × (m.object_data (some o) ≡ done b)
      → (u : Userdata) × (g' : Frame D) × (u.user_data ≡ b)
        × (stage m cells module_id f g (pos n) nresults ≡ done (g', write_cell b nresults cells))
        × IsStaged r' g g' u (n % word)
  unfolding stage pushlightuserdata pushinteger push_fitting kept
  staged {r} {r'} m cells module_id nresults n p o b f g wf wg fits room (e, e', at) =
      let (u, at_b, made) = light m module_id 1 nresults p o b cells e e' at in
      let (g1, pushed1, base1, holds1, regs1, sp1) =
        push_lem g (light_userdata u) wg.base tt (omega arith) in
      let w1 : IsState r' g1 = record {
        base = base1;
        register_array = rw regs1 wg.register_array;
      } in
      let (g2, pushed2, base2, holds2, regs2, sp2) =
        push_lem g1 (long (n % word)) base1 tt (omega arith) in
      (
        u,
        g2,
        at_b,
        rw
            (
              fits_eight f n wf fits,
              ensured g wg (omega arith),
              made,
              pushed1,
              ensured g1 w1 (omega arith),
              pushed2,
            )
            refl,
        record {
          state = record { base = base2; register_array = rw regs2 w1.register_array };
          holds =
              holds2
              ∙ ap (λ xs. xs ++ long (n % word) ∷ []) holds1
              ∙ append_assoc (contents g) (light_userdata u ∷ []) (long (n % word) ∷ []);
        },
      )

  -- Taking the two off again.
  unstaged :
      {r : ℕ} (g g' : Frame D) (u : Userdata) (w : ℕ)
      → IsStaged r g g' u w
      → (h : Frame D) × (drop_values g' (pos 2) ≡ done h) × IsState r h × (contents h ≡ contents g)
  unfolding drop_values
  unstaged g g' u w s =
      let size : g'.sp ≡ length (contents g) + 2 = omega (
        arith,
        length-contents g' s.state,
        ap length s.holds,
        length-append (contents g) (light_userdata u ∷ long w ∷ []),
      ) in
      let (h, dropped) = pop_all-total 2 g' s.state (omega (arith, size)) in
      let (wh, sp, vs, two, parts) = pop_all-done 2 g' s.state dropped in
      let (same, _) =
        append_inj (contents h) vs (contents g) (light_userdata u ∷ long w ∷ []) two
          (sym parts ∙ s.holds) in
      (h, dropped, wh, same)

  isfunction_first :
      {r : ℕ} (h : Frame D) (args : List (Value D)) (c : ℕ)
      → IsState r h
      → contents h ≡ closure c ∷ args
      → isfunction h (pos 1) ≡ done true
  unfolding isfunction has_type lua_type is_outside type_of is_type
  isfunction_first h args c w holds =
      let size : h.sp ≡ suc (length args) = omega (arith, length-contents h w, ap length holds) in
      let inside : ltb h.sp 1 ≡ false = ground (arith, size) in
      rw (value_at-first h args (closure c) w holds, inside) refl

  topointer_staged :
      {r : ℕ} (g g' : Frame D) (u : Userdata) (w : ℕ)
      → IsStaged r g g' u w
      → topointer g' (negsuc 1) ≡ done (some u.user_data)
  unfolding topointer get_unique_ptr
  topointer_staged g g' u w s =
      rw (value_at-under g' (contents g) (long w ∷ []) (light_userdata u) 1 s.state s.holds refl)
        refl

  -- The end of the function that a new coroutine runs.
  abbrev reported : Option ℕ → Cells → Vm D × Frame D → Run (Stop D) (Vm D × Cells × Frame D × ℕ)
  reported pointer cells t = done (t.0, report pointer t.1.sp cells, t.1, 0)

  closure_inj : {id c : ℕ} → ◌≡◌ {A = Value D} (closure c) (closure id) → id ≡ c
  closure_inj h = cc

  -- What the function of a coroutine leaves, once it was called with its arguments.
  called_main :
      {r : ℕ} (outside : Outside D) (callee : Vm D → Frame D → Run (Stop D) (Vm D × Frame D × ℕ))
      (depth : ℕ) (vm vm' : Vm D) (cells cells'' : Cells) (f h : Frame D) (args : List (Value D))
      (b c k : ℕ)
      → IsState r f
      → contents f ≡ closure c ∷ args
      → (lua_call outside callee depth vm f (pos (length args)) (negsuc 0)
          >>= reported (some b) cells)
        ≡ done (vm', cells'', h, k)
      → (e e' : Frame D) × (count : ℕ) × (contents e ≡ args)
        × (e.closure_id ≡ c)
        × (callee vm e ≡ done (vm', e', count))
        × (contents h ≡ padded e'.sp (returned_values e' count))
        × (cells'' ≡ write_cell b h.sp cells)
  unfolding report
  called_main outside callee depth vm vm' cells cells'' f h args b c k w holds ran =
      let ((vm1, h1), called, both) =
        >>=-eq-done (lua_call outside callee depth vm f (pos (length args)) (negsuc 0)) _ ran in
      let (e, e', id, count, results, is, _) =
        lua_call_lem outside callee depth vm f [] args (closure c) (negsuc 0) w holds called in
      let pair = same_result (done (vm1, report (some b) h1.sp cells, h1, 0)) refl both in
      let same_vm : vm1 ≡ vm' = ap (λ t. t.0) pair in
      let same_h : h1 ≡ h = ap (λ t. t.2) pair in
      (
        e,
        e',
        count,
        is.entry,
        is.entered ∙ closure_inj is.is_closure,
        is.ran ∙ ap (λ (m : Vm D). done (m, e', count)) same_vm,
        sym (ap contents same_h)
            ∙ is.after
            ∙ is.values
            ∙ ap (λ (n : ℕ). padded n (returned_values e' count)) is.number,
        sym (ap (λ t. t.1) pair) ∙ ap (λ (t : Frame D). write_cell b t.sp cells) same_h,
      )

module _ {D : Type 0} (host : Host D) where
  count_staged :
      {r : ℕ} (g g' : Frame D) (u : Userdata) (n : ℕ)
      → n ≤ general_stack_size
      → IsStaged r g g' u (n % word)
      → tonumberx host g' (negsuc 0) ≡ done (some (host.of_long (pos n)))
  unfolding tonumberx to_double number_or_none
  count_staged g g' u n small s =
      let read : to_signed (n % word) ≡ pos n = ground arith in
      let top =
        value_at-under g' (contents g ++ light_userdata u ∷ []) [] (long (n % word)) 0 s.state
          (s.holds ∙ sym (append_assoc (contents g) (light_userdata u ∷ []) (long (n % word) ∷ [])))
          refl in
      rw (top, read) refl

  trampolined :
      (outside : Outside D) (callee : Vm D → Frame D → Run (Stop D) (Vm D × Frame D × ℕ))
      (depth : ℕ) (text : Option Str) (vm : Vm D) (cells : Cells) (f f1 : Frame D)
      (pointer : Option ℕ) (x : D)
      → ltb f.sp 2 ≡ false
      → topointer f (negsuc 1) ≡ done pointer
      → tonumberx host f (negsuc 0) ≡ done (some x)
      → drop_values f (pos 2) ≡ done f1
      → isfunction f1 (pos 1) ≡ done true
      → trampoline host outside callee depth text vm cells f ≡ (
          lua_call outside callee depth vm f1 (host.to_long x) (negsuc 0)
          >>= reported pointer cells)
  unfolding trampoline gettop
  trampolined outside callee depth text vm cells f f1 pointer x two at count dropped main =
      rw (two, at, count, dropped, main) refl

  -- A new coroutine with a function at the bottom of its stack and `args` above it, where `lua_resume` finds room on
  -- both stacks and the collector has memory at `b`, and where the conversion of the number of arguments to a double and
  -- back is exact: the function's stack holds exactly the arguments. When it returns, the coroutine's stack
  -- holds as many values as the function's stack did, the returned ones first and nil after them, and that
  -- number is stored in the memory at `b`, in place of the pointer that `lua_resume` was given, and not
  -- where that points to.
  pub resume_lem :
      {r r' : ℕ} (m : Allocations D) (cells : Cells) (module_id nresults p o b c : ℕ)
      (f g : Frame D) (args : List (Value D))
      → IsState r f
      → IsState r' g
      → contents g ≡ closure c ∷ args
      → f.sp + (8 + length args) ≤ general_stack_size
      → g.sp + 2 ≤ general_stack_size
      → (m.malloc ≡ some p) × (m.object ≡ some o) × (m.object_data (some o) ≡ done b)
      → host.to_long (host.of_long (pos (length args))) ≡ pos (length args)
      → (g' : Frame D) × (cells' : Cells) × (stage m cells module_id f g
            (pos (length args))
            nresults
          ≡ done (g', cells'))
        × (cells' b ≡ nresults)
        × ((outside : Outside D) (callee : Vm D → Frame D → Run (Stop D) (Vm D × Frame D × ℕ))
              (depth : ℕ) (text : Option Str) (vm vm' : Vm D) (h : Frame D) (cells'' : Cells)
              (k : ℕ)
            → trampoline host outside callee depth text vm cells' g' ≡ done (vm', cells'', h, k)
            → (e e' : Frame D) × (count : ℕ) × (contents e ≡ args)
              × (e.closure_id ≡ c)
              × (callee vm e ≡ done (vm', e', count))
              × (contents h ≡ padded e'.sp (returned_values e' count))
              × (cells'' b ≡ h.sp)
              × (nresults ≢ b → cells'' nresults ≡ cells nresults))
  resume_lem {r} {r'} m cells module_id nresults p o b c f g args wf wg holds fits room memory
        exact =
      let n = length args in
      let (u, g', at_b, ready, s) =
        staged m cells module_id nresults n p o b f g wf wg fits room memory in
      let (h1, dropped, w1, same) = unstaged g g' u (n % word) s in
      let now = same ∙ holds in
      let small : n ≤ general_stack_size = omega arith in
      let size : g'.sp ≡ length (contents g) + 2 = omega (
        arith,
        length-contents g' s.state,
        ap length s.holds,
        length-append (contents g) (light_userdata u ∷ long (n % word) ∷ []),
      ) in
      let two : ltb g'.sp 2 ≡ false = ground (arith, size) in
      (
        g',
        write_cell b nresults cells,
        ready,
        ground arith,
        λ outside callee depth text vm vm' h cells'' k ran.
            let ran' =
              sym (
                trampolined outside callee depth text vm (write_cell b nresults cells) g' h1
                  (some u.user_data) (host.of_long (pos n)) two
                  (topointer_staged g g' u (n % word) s) (count_staged g g' u n small s) dropped
                  (isfunction_first h1 args c w1 now))
              ∙ ran in
            let (e, e', count, entry, entered, ran_e, left, stored) =
              called_main outside callee depth vm vm' (write_cell b nresults cells) cells'' h1 h
                args b c k w1 now (rw (exact, at_b) at ran') in
            (
              e,
              e',
              count,
              entry,
              entered,
              ran_e,
              left,
              ap (λ (t : Cells). t b) stored ∙ written b h.sp (write_cell b nresults cells),
              λ differ.
                  ap (λ (t : Cells). t nresults) stored
                  ∙ kept_cell b nresults h.sp (write_cell b nresults cells) differ
                  ∙ kept_cell b nresults nresults cells differ,
            ),
      )
