-- ===== src/CallStack/Walk/Laws.antt =====
-- The order and the end of the walk over a call stack in src/coroutine.c.
use mathlib.Core.List.{reverse, reverse-cons}
use fluffy_vm.Prelude.{
  ℕ, zero, suc, ◌+◌, ◌-◌, ◌<◌, ◌≡◌, refl, sym, ap, ◌∙◌, arith, Bool, true, false, List, [], ◌∷◌,
  ◌++◌, length, get_or, if◌then◌else◌, length-reverse, ◌==◌, ltb, ltb→lt, Bool-cases, inl, inr,
  none, get_elem?,
}
use fluffy_vm.Prelude.Run.{Run, done, crash, deadlock, ◌>>=◌, >>=-eq-done}
use fluffy_vm.CallStack.{CallStack, Jump, lock, unlock}
use fluffy_vm.Prelude.Int.{negsuc}
use fluffy_vm.CallStack.Walk.{
  lua_function, native_code, CallInfo, CallFrame, trace_frame, framed, frame_at, position,
  walk_stack, iterate_call_stack,
}

-- The frames of call states in a list, the bottom of the stack first.
abbrev pub frames_from : {E : Type 0} → (ℕ → CallInfo) → ℕ → List ℕ → Run E (List CallFrame)
frames_from info p [] = done []
frames_from info p (s ∷ states) = do
  frame ← trace_frame s (info s) (p == 0)
  frames ← frames_from info (suc p) states
  done (frame ∷ frames)

-- A consumer that is shown frames until it refuses one.
abbrev pub visit : {S : Type 0} → (S → CallFrame → S × Bool) → List CallFrame → S → S
visit consumer [] s = s
visit consumer (frame ∷ frames) s =
    let rest = visit consumer frames (consumer s frame).0 in
    if (consumer s frame).1 then rest else (consumer s frame).0

get_or-append_left :
    {A : Type 0} (xs ys : List A) (i : ℕ) (d : A)
    → i < length xs
    → get_or (xs ++ ys) i d ≡ get_or xs i d
get_or-append_left [] ys i d h = absurd (omega arith)
get_or-append_left (x ∷ xs) ys zero d h = refl
get_or-append_left (x ∷ xs) ys (suc i) d h = get_or-append_left xs ys i d (omega arith)

get_or-end :
    {A : Type 0} (xs : List A) (v d : A) (i : ℕ) → i ≡ length xs → get_or (xs ++ v ∷ []) i d ≡ v
get_or-end [] v d zero h = refl
get_or-end [] v d (suc i) h = absurd (omega arith)
get_or-end (x ∷ xs) v d zero h = absurd (omega arith)
get_or-end (x ∷ xs) v d (suc i) h = get_or-end xs v d i (omega arith)

get_or-reverse :
    {A : Type 0} (xs : List A) (i : ℕ) (d : A)
    → i < length xs
    → get_or (reverse xs) i d ≡ get_or xs (length xs - i - 1) d
get_or-reverse [] i d h = absurd (omega arith)
get_or-reverse (x ∷ xs) i d h =
    ap (λ ys. get_or ys i d) (reverse-cons x xs) ∙ elim (Bool-cases (ltb i (length xs))) [
      | inl lt ↦
          let inside : i < length xs = ltb→lt i (length xs) lt in
          let next : suc (length xs) - i - 1 ≡ suc (length xs - i - 1) = omega arith in
          get_or-append_left (reverse xs) (x ∷ []) i d (rw (length-reverse xs) inside)
          ∙ get_or-reverse xs i d inside
          ∙ ap (λ (k : ℕ). get_or (x ∷ xs) k d) (sym next)
      | inr ge ↦
          let last : i ≡ length xs = ground (arith, h) in
          let start : suc (length xs) - i - 1 ≡ 0 = omega (arith, last) in
          get_or-end (reverse xs) x d i (last ∙ sym (length-reverse xs))
          ∙ ap (λ (k : ℕ). get_or (x ∷ xs) k d) (sym start)
    ]

abbrev FramesAt : (E : Type 0) → (ℕ → CallInfo) → ℕ → List ℕ → List CallFrame → CallFrame → Type 0
FramesAt E info b states frames d =
    (p : ℕ)
    → p < length states
    → framed {E = E} info (b + p) (get_elem? states p) ≡ done (get_or frames p d)

module _ {E : Type 0} where
  FramesAt-cons :
      (info : ℕ → CallInfo) (b s : ℕ) (states : List ℕ) (frame : CallFrame)
      (frames : List CallFrame) (d : CallFrame)
      → trace_frame {E = E} s (info s) (b == 0) ≡ done frame
      → FramesAt E info (suc b) states frames d
      → FramesAt E info b (s ∷ states) (frame ∷ frames) d
  unfolding framed
  FramesAt-cons info b s states frame frames d first each zero lt =
      let here : b + 0 ≡ b = omega arith in
      ap (λ (k : ℕ). trace_frame s (info s) (k == 0)) here ∙ first
  FramesAt-cons info b s states frame frames d first each (suc k) lt =
      let next : b + suc k ≡ suc b + k = omega arith in
      ap (λ (j : ℕ). framed info j (get_elem? states k)) next ∙ each k (omega arith)

  frames_from-each :
      (info : ℕ → CallInfo) (b : ℕ) (states : List ℕ) (frames : List CallFrame) (d : CallFrame)
      → frames_from {E = E} info b states ≡ done frames
      → (length frames ≡ length states) × FramesAt E info b states frames d
  frames_from-each info b [] frames d h =
      let none_left : [] ≡ frames = cc h in
      (sym (ap length none_left), λ p lt. absurd (omega arith))
  frames_from-each info b (s ∷ states) frames d h =
      let (frame, first, h1) = >>=-eq-done (trace_frame s (info s) (b == 0)) _ h in
      let (rest, others, h2) = >>=-eq-done (frames_from info (suc b) states) _ h1 in
      let same : frame ∷ rest ≡ frames = cc h2 in
      let (len, each) = frames_from-each info (suc b) states rest d others in
      rw (← same) (ap suc len, FramesAt-cons info b s states frame rest d first each)

  -- The frame at each position, from the frames of all.
  frame_at-some :
      (info : ℕ → CallInfo) (states : List ℕ) (frames : List CallFrame) (d : CallFrame)
      → frames_from {E = E} info 0 states ≡ done frames
      → (length frames ≡ length states)
        × ((p : ℕ) → p < length states → frame_at {E = E} info states p ≡ done (get_or frames p d))
  unfolding frame_at
  frame_at-some info states frames d h =
      let (len, each) = frames_from-each info 0 states frames d h in
      (
        len,
        λ p lt.
            let base : p ≡ 0 + p = omega arith in
            ap (λ (k : ℕ). framed info k (get_elem? states p)) base ∙ each p lt,
      )

module _ {E S : Type 0} (consumer : S → CallFrame → S × Bool) where
  walk_lem :
      (info : ℕ → CallInfo) (states : List ℕ) (backward : Bool) (usage i : ℕ)
      (frames : List CallFrame) (d : CallFrame) (s : S)
      → ((k : ℕ)
          → k < length frames
          → frame_at {E = E} info states (position backward usage (i + k))
            ≡ done (get_or frames k d))
      → walk_stack {E = E} consumer info states backward usage i (length frames) s
        ≡ done (visit consumer frames s)
  unfolding walk_stack
  walk_lem info states backward usage i [] d s h = refl
  walk_lem info states backward usage i (frame ∷ frames) d s h =
      let here : i + 0 ≡ i = omega arith in
      let first : frame_at {E = E} info states (position backward usage i) ≡ done frame =
        ap (λ (k : ℕ). frame_at {E = E} info states (position backward usage k)) (sym here)
        ∙ h 0 (omega arith) in
      let rest = walk_lem info states backward usage (i + 1) frames d (consumer s frame).0 (λ k lt.
        let next : i + 1 + k ≡ i + suc k = omega arith in
        ap (λ (j : ℕ). frame_at {E = E} info states (position backward usage j)) next
        ∙ h (suc k) (omega arith)) in
      rw (first, rest)
        (elim (Bool-cases (consumer s frame).1) [ inl e ↦ rw e refl | inr e ↦ rw e refl ])

blank : CallFrame
blank = record {
  state = 0;
  is_native = false;
  name = lua_function;
  source = native_code;
  line = negsuc 0;
  bytecode = none;
  is_main = false;
}

module _ {D S : Type 0} (consumer : S → CallFrame → S × Bool) where
  -- `coroutine_iterate_call_stack`, where no frame reads through NULL and the lock is free: the consumer is shown the frames of
  -- the call states from the bottom up, or from the top down when `backward` is set, each once, until it refuses
  -- one; and the call stack is as before, its lock free again. While the lock is taken, the call waits for ever.
  pub iterate_call_stack_lem :
      (info : ℕ → CallInfo) (c : CallStack) (frames : List CallFrame) (s : S)
      → frames_from {E = Jump D} info 0 (reverse c.states) ≡ done frames
      → (c.locked ≡ false
          → (iterate_call_stack {D = D} consumer info c false s ≡ done (c, visit consumer frames s))
            × (iterate_call_stack {D = D} consumer info c true s
                ≡ done (c, visit consumer (reverse frames) s)))
        × (c.locked ≡ true
            → (backward : Bool)
            → iterate_call_stack {D = D} consumer info c backward s ≡ crash deadlock)
  unfolding iterate_call_stack lock unlock
  iterate_call_stack_lem info c frames s h =
      let (len, each) = frame_at-some info (reverse c.states) frames blank h in
      let size : length frames ≡ length c.states = len ∙ length-reverse c.states in
      let from_bottom : (k : ℕ)
          → k < length frames
          → frame_at {E = Jump D} info (reverse c.states) (0 + k) ≡ done (get_or frames k blank) =
        λ k lt.
          let here : 0 + k ≡ k = omega arith in
          ap (λ (j : ℕ). frame_at {E = Jump D} info (reverse c.states) j) here
          ∙ each k (omega (arith, len)) in
      let from_top : (k : ℕ)
          → k < length (reverse frames)
          → frame_at {E = Jump D} info (reverse c.states) (length c.states - (0 + k) - 1)
            ≡ done (get_or (reverse frames) k blank) =
        λ k lt.
          let inside : k < length frames = omega (arith, length-reverse frames) in
          let there : length c.states - (0 + k) - 1 ≡ length frames - k - 1 = omega (arith, size) in
          ap (λ (j : ℕ). frame_at {E = Jump D} info (reverse c.states) j) there
          ∙ each (length frames - k - 1) (omega (arith, len))
          ∙ ap (λ f. done f) (sym (get_or-reverse frames k blank inside)) in
      let up =
        sym (
          ap (λ (n : ℕ). walk_stack consumer info (reverse c.states) false (length c.states) 0 n s)
            size)
        ∙ walk_lem consumer info (reverse c.states) false (length c.states) 0 frames blank s
            from_bottom in
      let down =
        sym (
          ap (λ (n : ℕ). walk_stack consumer info (reverse c.states) true (length c.states) 0 n s)
            (length-reverse frames ∙ size))
        ∙ walk_lem consumer info (reverse c.states) true (length c.states) 0 (reverse frames) blank
            s from_top in
      (λ free. (rw (free, up) refl, rw (free, down) refl), λ taken backward. rw taken refl)
