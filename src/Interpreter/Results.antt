-- ===== src/Interpreter/Results.antt =====
-- What a call of src/interpreter.c hands over: the arguments that field C of CALL asks for, the values that the callee
-- returned, and nil for those that it is asked for beyond them.
use fluffy_vm.Prelude.{
  ℕ, zero, suc, ◌+◌, ◌-◌, ◌<◌, ◌≤◌, ◌≡◌, refl, ap, ◌∙◌, arith, List, [], ◌∷◌, ltb, leb, length,
  get_or, get_or-take, drop, length-take, Bool-cases, inl, inr,
}
use fluffy_vm.Prelude.Int.{ℤ, pos, negsuc}
use fluffy_vm.Prelude.Run.{done, >>=-eq-done}
use fluffy_vm.Value.{Value, nil, not_present, closure}
use fluffy_vm.Value.Kind.{IsPresent, typename}
use fluffy_vm.Frame.{Frame, general_stack_size, assert_present, push}
use fluffy_vm.Frame.Laws.{contents}
use fluffy_vm.Interpreter.Ops.{push_all, results_from, callable}
use fluffy_vm.Interpreter.Frames.{push-inv}

-- The first `n` values, with nil where there are no more.
abbrev pub padded : {D : Type 0} → ℕ → List (Value D) → List (Value D)
padded zero vs = []
padded (suc n) [] = nil ∷ padded n []
padded (suc n) (v ∷ vs) = v ∷ padded n vs

-- The top `count` values of the stack that the callee left, or all of them.
abbrev pub returned_values : {D : Type 0} → Frame D → ℕ → List (Value D)
returned_values g count = drop (g.sp - count) (contents g)

-- How field C of CALL splits the caller's stack: no arguments, all of it, or C - 1.
abbrev pub AreArguments : {D : Type 0} → ℕ → List (Value D) → List (Value D) → Type 0
AreArguments zero base args = args ≡ []
AreArguments (suc zero) base args = base ≡ []
AreArguments (suc (suc n)) base args = length args ≡ suc n

-- How many results field B of CALL asks for: none, as many as the callee's stack holds values, or B - 1.
abbrev pub IsCount : ℕ → ℕ → ℕ → Type 0
IsCount zero sp n = n ≡ 0
IsCount (suc zero) sp n = n ≡ sp
IsCount (suc (suc b)) sp n = n ≡ suc b

-- The same for the `nret` of a C function: LUA_MULTRET is -1.
abbrev pub IsNativeCount : ℤ → ℕ → ℕ → Type 0
IsNativeCount (pos k) sp n = n ≡ k
IsNativeCount (negsuc zero) sp n = n ≡ sp
IsNativeCount (negsuc (suc k)) sp n = n ≡ 0

next : (n : ℕ) → suc (n + 1) ≡ suc n + 1
next n = omega arith

module _ {A : Type 0} where
  pub empty_of_length : (xs : List A) (n m : ℕ) → length xs + n ≡ m → n ≡ m → xs ≡ []
  empty_of_length [] n m h e = refl
  empty_of_length (x ∷ xs) n m h e = absurd (omega arith)

  drop_all : (n : ℕ) (xs : List A) → length xs ≤ n → drop n xs ≡ []
  drop_all zero [] h = refl
  drop_all zero (x ∷ xs) h = absurd (omega arith)
  drop_all (suc n) [] h = refl
  drop_all (suc n) (x ∷ xs) h = drop_all n xs (omega arith)

  drop-suc :
      (xs : List A) (n : ℕ) (d : A) → n < length xs → drop n xs ≡ get_or xs n d ∷ drop (n + 1) xs
  drop-suc [] n d h = absurd (omega arith)
  drop-suc (x ∷ xs) zero d h = refl
  drop-suc (x ∷ xs) (suc n) d h =
      drop-suc xs n d (omega arith) ∙ ap (λ (k : ℕ). get_or xs n d ∷ drop k (x ∷ xs)) (next n)

  get_or-absent : (xs : List A) (n : ℕ) (d : A) → length xs ≤ n → get_or xs n d ≡ d
  get_or-absent [] n d h = refl
  get_or-absent (x ∷ xs) zero d h = absurd (omega arith)
  get_or-absent (x ∷ xs) (suc n) d h = get_or-absent xs n d (omega arith)

module _ {D : Type 0} where
  inside_array : (xs : List (Value D)) (n : ℕ) → IsPresent (get_or xs n not_present) → n < length xs
  inside_array xs n present = elim (Bool-cases (ltb n (length xs))) [
    | inl e ↦ ground arith
    | inr e ↦
        let gone : get_or xs n not_present ≡ not_present =
          get_or-absent xs n not_present (ground arith) in
        absurd (rw gone at present)
  ]

  -- Results that were pushed are those that the callee returned, and nil after them.
  pub results_from-padded :
      (g f : Frame D) (start n : ℕ) {f' : Frame D}
      → push_all f (results_from g start n) ≡ done f'
      → results_from g start n ≡ padded n (drop start (contents g))
  unfolding push_all results_from
  results_from-padded g f start zero h = refl
  results_from-padded g f start (suc n) h = elim (Bool-cases (ltb start g.sp)) [
    | inl e ↦
        let v = get_or g.general_stack start not_present in
        let (f1, pushed, h1) = >>=-eq-done (push f v) _ (rw e at h) in
        let there = inside_array g.general_stack start (push-inv f v pushed).0 in
        let below : start < g.sp = ground arith in
        let size : start < length (contents g) =
          omega (arith, length-take g.sp g.general_stack, there, below) in
        let same : get_or (contents g) start not_present ≡ v =
          get_or-take g.general_stack g.sp start not_present below in
        rw (e, drop-suc (contents g) start not_present size, same)
          (ap (λ xs. v ∷ xs) (results_from-padded g f1 (start + 1) n h1))
    | inr e ↦
        let (f1, _, h1) = >>=-eq-done (push f nil) _ (rw e at h) in
        let above : g.sp ≤ start = ground arith in
        let none_left : drop start (contents g) ≡ [] =
          drop_all start (contents g) (omega (arith, length-take g.sp g.general_stack, above)) in
        let none_after : drop (start + 1) (contents g) ≡ [] =
          drop_all (start + 1) (contents g)
            (omega (arith, length-take g.sp g.general_stack, above)) in
        let rest : results_from g (start + 1) n ≡ padded n [] =
          results_from-padded g f1 (start + 1) n h1 ∙ ap (λ xs. padded n xs) none_after in
        rw (e, none_left) (ap (λ xs. nil ∷ xs) rest)
  ]

  push-closure :
      (f : Frame D) (v : Value D) {f' : Frame D} → push f v ≡ done f' → f'.closure_id ≡ f.closure_id
  unfolding push
  push-closure f v {f'} h = elim (Bool-cases (leb general_stack_size f.sp)) [
    | inl e ↦ cc (rw e at h)
    | inr e ↦ let (_, _, k) = >>=-eq-done (assert_present v) _ (rw e at h) in cc
  ]

  pub push_all-closure :
      (f : Frame D) (vs : List (Value D)) {f' : Frame D}
      → push_all f vs ≡ done f'
      → f'.closure_id ≡ f.closure_id
  unfolding push_all
  push_all-closure f [] h = cc
  push_all-closure f (v ∷ vs) h =
      let (g, pushed, k) = >>=-eq-done (push f v) _ h in
      push_all-closure g vs k ∙ push-closure f v pushed

  pub callable-done : (v : Value D) {id : ℕ} → callable v ≡ done id → v ≡ closure id
  unfolding callable typename
  callable-done (closure c) {id} h = let same : c ≡ id = cc in ap closure same
  callable-done _ h = cc
