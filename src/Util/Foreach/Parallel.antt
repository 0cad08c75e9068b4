-- ===== src/Util/Foreach/Parallel.antt =====
-- `foreach_parallel_do` of src/util/functional/foreach.c: in every interleaving of the threads each value is consumed once.
use fluffy_vm.Prelude.{
  ℕ, zero, suc, ◌+◌, ◌≡◌, refl, ap, ◌∙◌, ◌⊎◌, inl, inr, arith, Bool, true, false, ◌&&◌, List, [],
  ◌∷◌, ◌++◌, ◌==◌, if◌then◌else◌, replicate, All, All-append, All-parts, All-replicate, Bool-cases,
  length, length-append, length-replicate,
}
use fluffy_vm.Util.Foreach.{
  foreach_ok, Phase, asking, holding, looking, leaving, stopped, Work, parallel_start, WorkStep,
  takes, finds_none, accepted, refused, continues, breaks, leaves, Working, begins, goes_on,
  status_of,
}

abbrev pub count : ℕ → List ℕ → ℕ
count x [] = 0
count x (y ∷ ys) = (if x == y then 1 else 0) + count x ys

-- How often threads hold the value.
abbrev pub held_by : ℕ → Phase → ℕ
held_by x (holding y) = if x == y then 1 else 0
held_by x _ = 0

abbrev pub held_count : ℕ → List Phase → ℕ
held_count x [] = 0
held_count x (p ∷ ps) = held_by x p + held_count x ps

abbrev pub all_accepted : (ℕ → Bool) → List ℕ → Bool
all_accepted accepts [] = true
all_accepted accepts (x ∷ xs) = accepts x && all_accepted accepts xs

-- A thread that is past its loop.
abbrev pub is_past : Phase → Bool
is_past leaving = true
is_past stopped = true
is_past _ = false

held_count-middle :
    (x : ℕ) (pre post : List Phase) (p : Phase)
    → held_count x (pre ++ p ∷ post) ≡ held_by x p + (held_count x pre + held_count x post)
held_count-middle x [] post p = omega arith
held_count-middle x (q ∷ pre) post p = omega (arith, held_count-middle x pre post p)

-- Why threads leave: there is nothing left, or a value was refused.
abbrev Reason : Work → Type 0
Reason w = (w.left ≡ []) ⊎ (w.failed ≡ true)

abbrev Leaves : Work → Phase → Type 0
Leaves w p = is_past p ≡ true → Reason w

record IsFair (accepts : ℕ → Bool) (items : List ℕ) (w : Work) : Type 0 where
  counts : (x : ℕ) → count x items ≡ count x w.left + (count x w.consumed + held_count x w.workers)
  verdict : all_accepted accepts w.consumed ≡ (if w.failed then false else true)
  must_stop : w.must_stop ≡ true → Reason w
  past : All (Leaves w) w.workers

All-map :
    {A : Type 0} {P Q : A → Type 0} (xs : List A) → ((a : A) → P a → Q a) → All P xs → All Q xs
All-map [] f h = tt
All-map (x ∷ xs) f h = (f x h.0, All-map xs f h.1)

-- One thread moves on, and no reason to leave is lost.
moved :
    (w v : Work) (pre post : List Phase) (p q : Phase)
    → (Reason w → Reason v)
    → Leaves v q
    → All (Leaves w) (pre ++ p ∷ post)
    → All (Leaves v) (pre ++ q ∷ post)
moved w v pre post p q keeps leaves_q h =
    let (before, after) = All-parts (Leaves w) pre (p ∷ post) h in
    let still = λ (r : Phase) (l : Leaves w r) (past : is_past r ≡ true). keeps (l past) in
    All-append (Leaves v) pre (q ∷ post) (All-map pre still before)
      (leaves_q, All-map post still after.1)

-- What the phases of the others hold does not change.
counts_moved :
    (x n l c l' c' : ℕ) (pre post : List Phase) (p q : Phase) (ws : List Phase)
    → ws ≡ pre ++ p ∷ post
    → n ≡ l + (c + held_count x ws)
    → l + (c + held_by x p) ≡ l' + (c' + held_by x q)
    → n ≡ l' + (c' + held_count x (pre ++ q ∷ post))
counts_moved x n l c l' c' pre post p q ws at before same = omega (
  arith,
  ap (held_count x) at,
  held_count-middle x pre post p,
  held_count-middle x pre post q,
  before,
  same,
)

keeps_IsFair :
    (accepts : ℕ → Bool) (items : List ℕ) {w u : Work}
    → IsFair accepts items w
    → WorkStep accepts w u
    → IsFair accepts items u
keeps_IsFair accepts items {w} f (takes pre post x xs u at left e) =
    let lost : Reason w → (xs ≡ []) ⊎ (w.failed ≡ true) =
      λ r. elim r [ inl empty ↦ absurd (taken_none empty) | inr failed ↦ inr failed ] in
    rw e (record {
      counts = λ y.
          counts_moved y (count y items) (count y w.left) (count y w.consumed) (count y xs)
            (count y w.consumed) pre post asking (holding x) w.workers at (f.counts y)
            (omega (arith, ap (count y) left));
      verdict = f.verdict;
      must_stop = λ stop. lost (f.must_stop stop);
      past =
          moved w (record w { left = xs; workers = pre ++ holding x ∷ post }) pre post asking
            (holding x) lost (λ no. cc) (rw at at f.past);
    })
  where
    taken_none : w.left ≡ [] → ⊥
    taken_none empty = cc
keeps_IsFair accepts items {w} f (finds_none pre post u at left e) = rw e (record {
  counts = λ y.
      counts_moved y (count y items) (count y w.left) (count y w.consumed) (count y w.left)
        (count y w.consumed) pre post asking leaving w.workers at (f.counts y) refl;
  verdict = f.verdict;
  must_stop = f.must_stop;
  past =
      moved w (record w { workers = pre ++ leaving ∷ post }) pre post asking leaving (λ r. r)
        (λ past. inl left) (rw at at f.past);
})
keeps_IsFair accepts items {w} f (accepted pre post x u at willing e) = rw e (record {
  counts = λ y.
      counts_moved y (count y items) (count y w.left) (count y w.consumed) (count y w.left)
        (count y (x ∷ w.consumed)) pre post (holding x) looking w.workers at (f.counts y)
        (omega arith);
  verdict = rw willing f.verdict;
  must_stop = f.must_stop;
  past =
      moved w (record w { consumed = x ∷ w.consumed; workers = pre ++ looking ∷ post }) pre post
        (holding x) looking (λ r. r) (λ no. cc) (rw at at f.past);
})
keeps_IsFair accepts items {w} f (refused pre post x u at unwilling e) = rw e (record {
  counts = λ y.
      counts_moved y (count y items) (count y w.left) (count y w.consumed) (count y w.left)
        (count y (x ∷ w.consumed)) pre post (holding x) leaving w.workers at (f.counts y)
        (omega arith);
  verdict = rw unwilling refl;
  must_stop = λ stop. inr refl;
  past =
      moved w
        (record w { consumed = x ∷ w.consumed; workers = pre ++ leaving ∷ post; failed = true }) pre
        post (holding x) leaving (λ r. inr refl) (λ past. inr refl) (rw at at f.past);
})
keeps_IsFair accepts items {w} f (continues pre post u at running e) = rw e (record {
  counts = λ y.
      counts_moved y (count y items) (count y w.left) (count y w.consumed) (count y w.left)
        (count y w.consumed) pre post looking asking w.workers at (f.counts y) refl;
  verdict = f.verdict;
  must_stop = f.must_stop;
  past =
      moved w (record w { workers = pre ++ asking ∷ post }) pre post looking asking (λ r. r)
        (λ no. cc) (rw at at f.past);
})
keeps_IsFair accepts items {w} f (breaks pre post u at stop e) = rw e (record {
  counts = λ y.
      counts_moved y (count y items) (count y w.left) (count y w.consumed) (count y w.left)
        (count y w.consumed) pre post looking leaving w.workers at (f.counts y) refl;
  verdict = f.verdict;
  must_stop = f.must_stop;
  past =
      moved w (record w { workers = pre ++ leaving ∷ post }) pre post looking leaving (λ r. r)
        (λ past. f.must_stop stop) (rw at at f.past);
})
keeps_IsFair accepts items {w} f (leaves pre post u at e) =
    let reason : Reason w =
      (All-parts (Leaves w) pre (leaving ∷ post) (rw at at f.past)).1.0 refl in
    rw e (record {
      counts = λ y.
          counts_moved y (count y items) (count y w.left) (count y w.consumed) (count y w.left)
            (count y w.consumed) pre post leaving stopped w.workers at (f.counts y) refl;
      verdict = f.verdict;
      must_stop = λ stop. reason;
      past =
          moved w (record w { workers = pre ++ stopped ∷ post; must_stop = true }) pre post leaving
            stopped (λ r. r) (λ past. reason) (rw at at f.past);
    })

start-IsFair :
    (accepts : ℕ → Bool) (items : List ℕ) (n : ℕ) → IsFair accepts items (parallel_start items n)
unfolding parallel_start
start-IsFair accepts items n = record {
  counts = λ x. omega (arith, none_held x n);
  verdict = refl;
  must_stop = λ no. cc;
  past = All-replicate (Leaves (parallel_start items n)) n asking (λ no. cc);
}
  where
    none_held : (x k : ℕ) → held_count x (replicate k asking) ≡ 0
    none_held x zero = refl
    none_held x (suc k) = omega (arith, none_held x k)

same_length :
    (pre post : List Phase) (p q : Phase) (ws : List Phase)
    → ws ≡ pre ++ p ∷ post
    → length (pre ++ q ∷ post) ≡ length ws
same_length pre post p q ws at =
    omega (arith, ap length at, length-append pre (p ∷ post), length-append pre (q ∷ post))

keeps_threads :
    (accepts : ℕ → Bool) {w u : Work} → WorkStep accepts w u → length u.workers ≡ length w.workers
keeps_threads accepts {w} (takes pre post x xs u at left e) =
    ap (λ (v : Work). length v.workers) e ∙ same_length pre post asking (holding x) w.workers at
keeps_threads accepts {w} (finds_none pre post u at left e) =
    ap (λ (v : Work). length v.workers) e ∙ same_length pre post asking leaving w.workers at
keeps_threads accepts {w} (accepted pre post x u at willing e) =
    ap (λ (v : Work). length v.workers) e ∙ same_length pre post (holding x) looking w.workers at
keeps_threads accepts {w} (refused pre post x u at unwilling e) =
    ap (λ (v : Work). length v.workers) e ∙ same_length pre post (holding x) leaving w.workers at
keeps_threads accepts {w} (continues pre post u at running e) =
    ap (λ (v : Work). length v.workers) e ∙ same_length pre post looking asking w.workers at
keeps_threads accepts {w} (breaks pre post u at stop e) =
    ap (λ (v : Work). length v.workers) e ∙ same_length pre post looking leaving w.workers at
keeps_threads accepts {w} (leaves pre post u at e) =
    ap (λ (v : Work). length v.workers) e ∙ same_length pre post leaving stopped w.workers at

Working-IsFair :
    (accepts : ℕ → Bool) (items : List ℕ) (n : ℕ) {u : Work}
    → Working accepts (parallel_start items n) u
    → IsFair accepts items u × (length u.workers ≡ n)
unfolding parallel_start
Working-IsFair accepts items n (begins u e) =
    rw e (start-IsFair accepts items n, length-replicate n asking)
Working-IsFair accepts items n (goes_on v u past step) =
    let (fair, threads) = Working-IsFair accepts items n past in
    (keeps_IsFair accepts items fair step, keeps_threads accepts step ∙ threads)

none_held_at_end : (x : ℕ) (ps : List Phase) → All (λ p. p ≡ stopped) ps → held_count x ps ≡ 0
none_held_at_end x [] h = refl
none_held_at_end x (p ∷ ps) h = omega (arith, ap (held_by x) h.0, none_held_at_end x ps h.1)

at_end-Reason :
    (w : Work) (ps : List Phase) (n : ℕ)
    → length ps ≡ suc n
    → All (λ p. p ≡ stopped) ps
    → All (Leaves w) ps
    → Reason w
at_end-Reason w [] n len ended past = absurd (omega arith)
at_end-Reason w (p ∷ ps) n len ended past = past.0 (ap is_past ended.0)

-- `foreach_parallel_do` with one thread or more, in whatever order the threads take their steps. At every moment each value that
-- the supplier had is still to be had, is held by one thread or was given to the consumer, and it is so as
-- often as the supplier had it. When all threads have ended, the status says whether the consumer refused a
-- value; and if it refused none, each value was given to the consumer as often as the supplier had it.
pub foreach_parallel_do_lem :
    (accepts : ℕ → Bool) (items : List ℕ) (n : ℕ) (u : Work)
    → Working accepts (parallel_start items (suc n)) u
    → ((x : ℕ) → count x items ≡ count x u.left + (count x u.consumed + held_count x u.workers))
      × (All (λ p. p ≡ stopped) u.workers
          → (all_accepted accepts u.consumed ≡ true → status_of u ≡ foreach_ok)
            × (status_of u ≡ foreach_ok
                → (all_accepted accepts u.consumed ≡ true)
                  × ((x : ℕ) → count x u.consumed ≡ count x items)))
unfolding status_of
foreach_parallel_do_lem accepts items n u past =
    let (fair, threads) = Working-IsFair accepts items (suc n) past in
    (
      fair.counts,
      λ ended.
          let reason = at_end-Reason u u.workers n threads ended fair.past in
          (
            λ willing. elim (Bool-cases u.failed) [
              | inl e ↦ let v = fair.verdict in cc (rw e at v)
              | inr e ↦ rw e refl
            ],
            λ ok. elim (Bool-cases u.failed) [
              | inl e ↦ cc (rw e at ok)
              | inr e ↦ (
                fair.verdict ∙ ap (λ (b : Bool). if b then false else true) e,
                λ x. elim reason [
                  | inl empty ↦
                      omega (
                        arith,
                        fair.counts x,
                        ap (count x) empty,
                        none_held_at_end x u.workers ended,
                      )
                  | inr failed ↦ cc
                ],
              )
            ],
          ),
    )
