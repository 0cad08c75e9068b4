-- ===== src/Api/Rotate.antt =====
-- `util_collections_rotate` of src/util/util.c rotates its slots to the right.
use fluffy_vm.Prelude.{
  ℕ, suc, ◌+◌, ◌-◌, ◌<◌, ◌≡◌, refl, sym, ap, ◌∙◌, arith, false, List, [], ◌∷◌, ◌++◌, ◌==◌, length,
  length-append, get_or, set,
}
use fluffy_vm.Prelude.Int.{ℤ}
use fluffy_vm.Prelude.Run.{done}
use fluffy_vm.Api.{shift, rotate_once, rotate_times, rotation_count, rotate}

module _ {A : Type 0} where
  -- The first list, reversed, before the second.
  abbrev onto : List A → List A → List A
  onto [] ys = ys
  onto (x ∷ xs) ys = onto xs (x ∷ ys)

  onto-append : (xs ys zs : List A) → onto (xs ++ ys) zs ≡ onto ys (onto xs zs)
  onto-append [] ys zs = refl
  onto-append (x ∷ xs) ys zs = onto-append xs ys (x ∷ zs)

  onto-onto : (xs ys zs : List A) → onto (onto xs ys) zs ≡ onto ys (xs ++ zs)
  onto-onto [] ys zs = refl
  onto-onto (x ∷ xs) ys zs = onto-onto xs (x ∷ ys) zs

  length-onto : (xs ys : List A) → length (onto xs ys) ≡ length xs + length ys
  length-onto [] ys = omega arith
  length-onto (x ∷ xs) ys = omega (arith, length-onto xs (x ∷ ys))

  get_or-onto :
      (xs ys : List A) (i k : ℕ) (blank : A)
      → k ≡ length xs + i
      → get_or (onto xs ys) k blank ≡ get_or ys i blank
  get_or-onto [] ys i k blank e = ap (λ n. get_or ys n blank) (omega arith)
  get_or-onto (x ∷ xs) ys i k blank e = get_or-onto xs (x ∷ ys) (suc i) k blank (omega arith)

  set-onto :
      (xs ys : List A) (i k : ℕ) (v : A)
      → k ≡ length xs + i
      → set (onto xs ys) k v ≡ onto xs (set ys i v)
  set-onto [] ys i k v e = ap (λ n. set ys n v) (omega arith)
  set-onto (x ∷ xs) ys i k v e = set-onto xs (x ∷ ys) (suc i) k v (omega arith)

  module _ (blank : A) (p : List A) where
    set-shift :
        (r : List A) (z w : A) (post : List A)
        → set (shift blank (length p) (length r) (onto p (onto r (z ∷ post)))) (length p) w
          ≡ onto p (w ∷ onto r post)
    unfolding shift
    set-shift [] z w post = set-onto p (z ∷ post) 0 (length p) w (omega arith)
    set-shift (y ∷ r) z w post =
        ap (λ xs. set (shift blank (length p) (length r) xs) (length p) w) moved
        ∙ set-shift r y w (y ∷ post)
      where
        below : get_or (onto p (onto r (y ∷ z ∷ post))) (length p + length r) blank ≡ y
        below =
            get_or-onto p (onto r (y ∷ z ∷ post)) (length r) _ blank refl
            ∙ get_or-onto r (y ∷ z ∷ post) 0 (length r) blank (omega arith)

        moved :
            set
              (onto p (onto r (y ∷ z ∷ post)))
              (length p + suc (length r))
              (get_or (onto p (onto r (y ∷ z ∷ post))) (length p + length r) blank)
            ≡ onto p (onto r (y ∷ y ∷ post))
        moved =
            ap (λ v. set (onto p (onto r (y ∷ z ∷ post))) (length p + suc (length r)) v) below
            ∙ set-onto p (onto r (y ∷ z ∷ post)) (suc (length r)) _ y refl
            ∙ ap (onto p) (set-onto r (y ∷ z ∷ post) 1 (suc (length r)) y (omega arith))

    rotate_once_lem :
        (r post : List A) (z : A) (len : ℕ)
        → len ≡ length r + 1
        → rotate_once blank (length p) len (onto p (onto r (z ∷ post))) ≡ onto p (z ∷ onto r post)
    unfolding rotate_once
    rotate_once_lem r post z len e =
        ap
          (λ (n : ℕ). set (shift blank (length p) n xs) (length p) (get_or xs (length p + n) blank))
          less
        ∙ ap (λ v. set (shift blank (length p) (length r) xs) (length p) v) top
        ∙ set-shift r z z post
      where
        xs : List A
        xs = onto p (onto r (z ∷ post))

        less : len - 1 ≡ length r
        less = omega arith

        top : get_or xs (length p + length r) blank ≡ z
        top =
            get_or-onto p (onto r (z ∷ post)) (length r) _ blank refl
            ∙ get_or-onto r (z ∷ post) 0 (length r) blank (omega arith)

    rotate_times_lem :
        (r s post : List A) (len : ℕ)
        → len ≡ length s + length r
        → rotate_times blank (length p) len (length r) (onto p (onto s (onto r post)))
          ≡ onto p (onto r (onto s post))
    unfolding rotate_times
    rotate_times_lem [] s post len e = refl
    rotate_times_lem (z ∷ r) s post len e =
        ap (rotate_times blank (length p) len (length r)) once
        ∙ rotate_times_lem r (s ++ z ∷ []) post len
            (rw (length-append s (z ∷ [])) (omega (arith, e)))
        ∙ ap (λ xs. onto p (onto r xs)) (onto-append s (z ∷ []) post)
      where
        once :
            rotate_once blank (length p) len (onto p (onto s (onto r (z ∷ post))))
            ≡ onto p (onto (s ++ z ∷ []) (onto r post))
        once =
            ap (λ xs. rotate_once blank (length p) len (onto p xs))
              (sym (onto-append r s (z ∷ post)))
            ∙ rotate_once_lem (r ++ s) post z len (rw (length-append r s) (omega (arith, e)))
            ∙ ap (λ xs. onto p (z ∷ xs)) (onto-append r s post)
            ∙ ap (onto p) (sym (onto-append s (z ∷ []) (onto r post)))

  back : (xs ys : List A) → onto (onto xs []) ys ≡ xs ++ ys
  back xs ys = onto-onto xs [] ys

  length-back : (xs : List A) → length (onto xs []) ≡ length xs
  length-back xs = omega (arith, length-onto xs [])

  -- Rotating `a` and then `b`, which stand behind `base` in an array, by as many slots as `b` has, to
  -- the right, exchanges the two: `b` stands before `a`, and nothing else moves. The distance may be
  -- negative or larger than the number of slots.
  pub rotate_lem :
      {E : Type 0} (blank : A) (base a b post : List A) (distance : ℤ)
      → 0 < length a + length b
      → rotation_count (length a + length b) distance ≡ length b
      → rotate {E = E} blank
          (length base)
          (length a + length b)
          distance
          (base ++ (a ++ (b ++ post)))
        ≡ done (base ++ (b ++ (a ++ post)))
  unfolding rotate
  rotate_lem blank base a b post distance some_slots count =
      let nonzero : (length a + length b == 0) ≡ false = ground arith in
      let enough : length a + length b ≡ length (onto a []) + length (onto b []) =
        omega (arith, length-back a, length-back b) in
      let turned =
        rotate_times_lem blank (onto base []) (onto b []) (onto a []) post (length a + length b)
          enough in
      rw (count, nonzero) (ap done (simp (length-back, back) at turned))
