-- ===== src/Api/Laws.antt =====
-- What `lua_rotate`, `lua_remove` and `lua_absindex` of src/api_layer/lua54.c do to the stack.
use native.Mathlib.Nat.{mod-eq_of_lt}
use mathlib.Core.List.{append_assoc}
use fluffy_vm.Prelude.{
  ℕ, zero, suc, ◌+◌, ◌-◌, ◌%◌, ◌<◌, ◌≡◌, refl, sym, ap, ◌∙◌, arith, List, [], ◌∷◌, ◌++◌, ◌&&◌, ltb,
  leb, if◌then◌else◌, All, length, length-append, length-take, drop, take-append-drop, take-append,
  All-prefix, get_or-All, All-parts, All-append, snoc-inj, get_or-take,
}
use fluffy_vm.Prelude.Int.{pos, negsuc}
use fluffy_vm.Prelude.Run.{Run, done, throw, ◌>>=◌}
use fluffy_vm.Value.{Value, not_present}
use fluffy_vm.Value.Error.{Err, static, invalid_stack_index}
use fluffy_vm.Value.Kind.{IsPresent}
use fluffy_vm.Frame.{Frame, pop}
use fluffy_vm.Frame.Laws.{contents, pop_lem}
use fluffy_vm.Interpreter.Ops.{pop_all}
use fluffy_vm.Interpreter.Frames.{IsState}
use fluffy_vm.Api.{absindex, rotation_count, rotate, lua_rotate, remove_value, drop_values}
use fluffy_vm.Api.Rotate.{rotate_lem}

-- The remainder of -1 asks for all places but one.
rotation_count-left : (n : ℕ) → rotation_count (1 + n) (negsuc 0) ≡ n
unfolding rotation_count
rotation_count-left zero = refl
rotation_count-left (suc n) =
    let one : 1 % (1 + suc n) ≡ 1 = mod-eq_of_lt (omega arith) in ground (arith, one)

module _ {D : Type 0} where
  -- A call state whose stack holds the same values in another order.
  reordered :
      {r : ℕ} (f : Frame D) (xs ys post : List (Value D))
      → IsState r f
      → contents f ≡ xs
      → length xs ≡ length ys
      → length (ys ++ post) ≡ length f.general_stack
      → (All IsPresent xs → All IsPresent ys)
      → IsState r (record f { general_stack = ys ++ post })
        × (contents (record f { general_stack = ys ++ post }) ≡ ys)
  reordered f xs ys post w holds same_length same_size perm =
      let size : f.sp ≡ length ys = omega (
        arith,
        length-take f.sp f.general_stack,
        ap length holds,
        w.base.stack_array,
        w.base.within,
        same_length,
      ) in
      let before : All IsPresent (contents f) =
        All-prefix IsPresent f.general_stack f.sp not_present (rw w.base.stack_array w.base.within)
          w.base.present in
      let after : All IsPresent ys = perm (rw holds at before) in
      (
        record {
          base = record {
            stack_array = same_size ∙ w.base.stack_array;
            within = w.base.within;
            present = λ i lt.
                rw (← get_or-take (ys ++ post) f.sp i not_present lt, take-append ys post f.sp size)
                  (get_or-All IsPresent ys i not_present (omega (arith, size)) after);
          };
          register_array = w.register_array;
        },
        take-append ys post f.sp size,
      )

  stack_size :
      {r : ℕ} (f : Frame D) (base rest : List (Value D)) (v : Value D)
      → IsState r f
      → contents f ≡ base ++ v ∷ rest
      → f.sp ≡ length base + (1 + length rest)
  stack_size f base rest v w holds = omega (
    arith,
    length-take f.sp f.general_stack,
    ap length holds,
    w.base.stack_array,
    w.base.within,
    length-append base (v ∷ rest),
  )

  pub drop_values_one :
      (f g : Frame D) (u : Value D) → pop f ≡ done (u, g) → drop_values f (pos 1) ≡ done g
  unfolding drop_values pop_all
  drop_values_one f g u popped = ap (λ m. m >>= λ r. done r.1) popped

  -- `lua_rotate` by -1 from a valid positive index takes the value there to the top.
  lua_rotate_left :
      {r : ℕ} (f : Frame D) (base rest : List (Value D)) (v : Value D)
      → IsState r f
      → contents f ≡ base ++ v ∷ rest
      → lua_rotate f (pos (length base + 1)) (negsuc 0)
        ≡ done
            (record f { general_stack = (base ++ (rest ++ v ∷ [])) ++ drop f.sp f.general_stack })
  unfolding lua_rotate
  lua_rotate_left f base rest v w holds =
      ap (λ m. m >>= λ i. turned i >>= λ xs. done (record f { general_stack = xs })) found
      ∙ ap (λ m. m >>= λ xs. done (record f { general_stack = xs })) moved
    where
      post : List (Value D)
      post = drop f.sp f.general_stack

      turned : ℕ → Run (Err D) (List (Value D))
      turned i = rotate not_present (i - 1) (f.sp - (i - 1)) (negsuc 0) f.general_stack

      size : f.sp ≡ length base + (1 + length rest)
      size = stack_size f base rest v w holds

      found : absindex f (pos (length base + 1)) ≡ done (length base + 1)
      found = ground (arith, size)

      whole : f.general_stack ≡ base ++ (v ∷ [] ++ (rest ++ post))
      whole =
          sym (take-append-drop f.sp f.general_stack)
          ∙ ap (λ (xs : List (Value D)). xs ++ post) holds
          ∙ append_assoc base (v ∷ rest) post

      start : length base + 1 - 1 ≡ length base
      start = omega arith

      places : f.sp - length base ≡ 1 + length rest
      places = omega (arith, size)

      together : base ++ (rest ++ (v ∷ [] ++ post)) ≡ (base ++ (rest ++ v ∷ [])) ++ post
      together =
          ap (λ (xs : List (Value D)). base ++ xs) (sym (append_assoc rest (v ∷ []) post))
          ∙ sym (append_assoc base (rest ++ v ∷ []) post)

      moved : turned (length base + 1) ≡ done ((base ++ (rest ++ v ∷ [])) ++ post)
      moved =
          ap (λ (i : ℕ). rotate not_present i (f.sp - i) (negsuc 0) f.general_stack) start
          ∙ ap (λ (n : ℕ). rotate not_present (length base) n (negsuc 0) f.general_stack) places
          ∙ ap
              (λ (xs : List (Value D)).
                rotate not_present (length base) (1 + length rest) (negsuc 0) xs)
              whole
          ∙ rotate_lem not_present base (v ∷ []) rest post (negsuc 0) (omega arith)
              (rotation_count-left (length rest))
          ∙ ap done together

  -- `lua_remove` of a valid positive index takes out exactly that value, and the call state stays well
  -- formed.
  pub remove_value_lem :
      {r : ℕ} (f : Frame D) (base rest : List (Value D)) (v : Value D)
      → IsState r f
      → contents f ≡ base ++ v ∷ rest
      → (f' : Frame D) × (remove_value f (pos (length base + 1)) ≡ done f')
        × IsState r f'
        × (contents f' ≡ base ++ rest)
  unfolding remove_value
  remove_value_lem f base rest v w holds =
      let (w1, now) = reordered f (base ++ v ∷ rest) top post w holds same_length same_size perm in
      let one : 0 < f.sp = omega (arith, size) in
      let (u, g, popped, _, base1, below, regs, sp1) =
        pop_lem (record f { general_stack = top ++ post }) w1.base one in
      let before = sym now ∙ below in
      (
        g,
        ap (λ m. m >>= λ f1. drop_values f1 (pos 1)) (lua_rotate_left f base rest v w holds)
            ∙ drop_values_one (record f { general_stack = top ++ post }) g u popped,
        record { base = base1; register_array = rw regs w.register_array },
        snoc-inj (contents g) (base ++ rest) u v
            (omega (
              arith,
              ap length before,
              length-append (contents g) (u ∷ []),
              length-append base rest,
              length-append base (rest ++ v ∷ []),
              length-append rest (v ∷ []),
            ))
            (sym before ∙ sym (append_assoc base rest (v ∷ []))),
      )
    where
      post : List (Value D)
      post = drop f.sp f.general_stack

      top : List (Value D)
      top = base ++ (rest ++ v ∷ [])

      size : f.sp ≡ length base + (1 + length rest)
      size = stack_size f base rest v w holds

      same_length : length (base ++ v ∷ rest) ≡ length top
      same_length = omega (
        arith,
        length-append base (v ∷ rest),
        length-append base (rest ++ v ∷ []),
        length-append rest (v ∷ []),
      )

      same_size : length (top ++ post) ≡ length f.general_stack
      same_size = omega (
        arith,
        length-append top post,
        ap length (take-append-drop f.sp f.general_stack),
        length-append (contents f) post,
        ap length holds,
        same_length,
      )

      perm : All IsPresent (base ++ v ∷ rest) → All IsPresent top
      perm h =
          let (hb, hv) = All-parts IsPresent base (v ∷ rest) h in
          All-append IsPresent base (rest ++ v ∷ []) hb
            (All-append IsPresent rest (v ∷ []) hv.1 (hv.0, tt))

  -- `lua_absindex` returns exactly for the indices from 1 to the number of values and from -1 down to
  -- minus that number: a
  -- positive index is its own result, and -(n + 1) stands for the stack pointer less n. For every other
  -- index it raises "invalid stack index".
  pub absindex_lem :
      (f : Frame D) (n : ℕ)
      → (absindex f (pos n)
          ≡ (if ltb 0 n && leb n f.sp then done n else throw (static invalid_stack_index)))
        × (absindex f (negsuc n)
            ≡ (if ltb n f.sp then done (f.sp - n) else throw (static invalid_stack_index)))
  unfolding absindex
  absindex_lem f n = (ground arith, ground arith)
