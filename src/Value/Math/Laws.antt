-- ===== src/Value/Math/Laws.antt =====
-- Laws of the arithmetic of src/value.c: integer division, the errors, and the comparison.
use native.Mathlib.Nat.{div-add-mod}
use fluffy_vm.Prelude.{
  ℕ, suc, ◌+◌, ◌-◌, ◌*◌, ◌/◌, ◌%◌, ◌^◌, ◌≤◌, ◌<◌, ◌≡◌, ◌≢◌, ◌↔◌, ◌⊎◌, ap, arith,
}
use fluffy_vm.Prelude.Int.{
  ℤ, pos, negsuc, word, to_signed, of_signed, abs, sub_ℕ, of_signed-to_signed,
}
use fluffy_vm.Prelude.Run.{done, ◌>>=◌}
use fluffy_vm.Value.{Host, double, long}
use fluffy_vm.Value.Equal.{cmp_true}
use fluffy_vm.Value.Math.{
  quot, rem, long_min, long_div, math_add, math_sub, math_div, math_mod, is_less,
}

-- The neg_word of a negated magnitude, and a product with it.
neg_neg_word : (n : ℕ) → n < word → of_signed (sub_ℕ 0 n) ≡ (word - n) % word
neg_neg_word n h = ground arith

mul_neg : (y n : ℕ) → (y * ((word - n) % word)) % word ≡ (y * (word - n)) % word
mul_neg y n = omega (arith, ap (λ (t : ℕ). y * t) (div-add-mod (word - n) word))

-- y * (word - n) + y * n = y * word
mul_complement : (y n : ℕ) → n < word → y * (word - n) + y * n ≡ y * word
mul_complement y n h = omega (arith, ap (λ (t : ℕ). y * t) (complement n h))
  where
    complement : (n : ℕ) → n < word → (word - n) + n ≡ word
    complement n h = omega arith

small : (n : ℕ) → n < word → n % word ≡ n
small n h = omega arith

neg_word : (n : ℕ) → suc n < word → of_signed (negsuc n) ≡ word - suc n
neg_word n h = omega arith

quot_le : (a b : ℕ) → a / b ≤ a
quot_le a b = omega arith

-- The four pairs of signs, for a dividend `b * q + r` and a divisor `b` of at most 64 bits.
module _ (b q r : ℕ) (hb : b < word) (hq : q < word) (hr : r < word) where
  pos-neg : ((word - b) * ((word - q) % word) + r) % word ≡ (b * q + r) % word
  pos-neg =
      omega (arith, mul_neg (word - b) q, mul_complement (word - b) q hq, mul_complement q b hb)

  neg-pos :
      (b * ((word - q) % word) + (word - r) % word) % word ≡ (word * b + word - (b * q + r)) % word
  neg-pos = omega (arith, mul_neg b q, mul_complement b q hq)

  neg-neg : ((word - b) * q + (word - r) % word) % word ≡ (word * q + word - (b * q + r)) % word
  neg-neg = omega (arith, mul_complement q b hb)

rem_lt : (a b : ℕ) → 0 < b → a % b < b
rem_lt a b h = omega arith

quot-rem :
    (a b : ℤ)
    → abs a < word
    → 0 < abs b
    → abs b < word
    → (of_signed b * of_signed (quot a b) + of_signed (rem a b)) % word ≡ of_signed a
unfolding quot rem
quot-rem (pos a) (pos b) ha hz hb =
    rw (small b (omega arith), small (a / b) (omega arith), small (a % b) (omega arith))
      (omega (arith, div-add-mod a b))
quot-rem (pos a) (negsuc b) ha hz hb =
    rw
      (
        neg_word b (omega arith),
        neg_neg_word (a / suc b) (omega arith),
        small (a % suc b) (omega arith),
      )
      (omega (
        arith,
        pos-neg (suc b) (a / suc b) (a % suc b) (omega arith) (omega arith) (omega arith),
        div-add-mod a (suc b),
      ))
quot-rem (negsuc a) (pos b) ha hz hb =
    rw
      (
        small b (omega arith),
        neg_neg_word (suc a / b) (omega arith),
        neg_neg_word (suc a % b) (omega arith),
        neg_word a (omega arith),
      )
      (omega (
        arith,
        neg-pos b (suc a / b) (suc a % b) (omega arith) (omega arith) (omega arith),
        div-add-mod (suc a) b,
      ))
quot-rem (negsuc a) (negsuc b) ha hz hb =
    rw
      (
        neg_word b (omega arith),
        small (suc a / suc b) (omega arith),
        neg_neg_word (suc a % suc b) (omega arith),
        neg_word a (omega arith),
      )
      (omega (
        arith,
        neg-neg (suc b) (suc a / suc b) (suc a % suc b) (omega arith) (omega arith) (omega arith),
        div-add-mod (suc a) (suc b),
      ))

quot-rem_at :
    (a b : ℤ) {x y : ℕ}
    → of_signed a ≡ x
    → of_signed b ≡ y
    → abs a < word
    → 0 < abs b
    → abs b < word
    → (y * of_signed (quot a b) + of_signed (rem a b)) % word ≡ x
quot-rem_at a b p q ha hz hb = rw (← p, ← q) (quot-rem a b ha hz hb)

rem-lt : (a b : ℤ) → 0 < abs b → abs b < word → abs (rem a b) < abs b
unfolding rem
rem-lt (pos a) (pos b) hz hb = omega arith
rem-lt (pos a) (negsuc b) hz hb = omega arith
rem-lt (negsuc a) (pos b) hz hb = ground arith
rem-lt (negsuc a) (negsuc b) hz hb = ground arith

module _ {D : Type 0} (host : Host D) where
  -- Integer addition and subtraction are inverse to each other, overflow included.
  pub sub-add :
      (a b : ℕ)
      → a < word
      → b < word
      → (math_add host (long a) (long b) >>= λ s. math_sub host s (long b)) ≡ done (long a)
  unfolding math_add math_sub
  sub-add a b ha hb = ap (λ (n : ℕ). done (long n)) (omega arith)

  -- For two doubles whose sign bit is set, `value_is_less` holds exactly when the first has the
  -- smaller bit neg_word, that is the smaller magnitude: the order of negative doubles is reversed.
  pub is_less-negative_doubles :
      (x y : D)
      → 2 ^ 63 ≤ host.bits x
      → host.bits x < word
      → 2 ^ 63 ≤ host.bits y
      → host.bits y < word
      → (is_less host (double x) (double y) ≡ done cmp_true) ↔ (host.bits x < host.bits y)
  unfolding is_less
  is_less-negative_doubles x y hx hx' hy hy' = ground arith

abs-to_signed : (w : ℕ) → w < word → (abs (to_signed w) ≤ 2 ^ 63) × (w ≢ 0 → 0 < abs (to_signed w))
abs-to_signed w h = ground arith

to_signed-of_signed : (a : ℤ) → abs a < 2 ^ 63 → to_signed (of_signed a) ≡ a
to_signed-of_signed a h = ground arith

module _ {D : Type 0} where
  long_div_lem :
      (op : ℤ → ℤ → ℤ) (a b : ℕ)
      → b ≢ 0
      → (a ≢ long_min) ⊎ (b ≢ word - 1)
      → long_div {D = D} op a b ≡ done (long (of_signed (op (to_signed a) (to_signed b))))
  unfolding long_div
  long_div_lem op a b hz hm = ground arith

module _ {D : Type 0} (host : Host D) where
  -- `value_math_div` and `value_math_mod` of two longs, for a non-zero divisor and operands that are
  -- not INT64_MIN and -1 together: both return a long, the quotient times the divisor plus the remainder is the
  -- dividend, and the remainder is smaller in magnitude than the divisor.
  pub div_mod_lem :
      (a b : ℕ)
      → a < word
      → b < word
      → b ≢ 0
      → (a ≢ long_min) ⊎ (b ≢ word - 1)
      → (q r : ℕ) × (math_div host (long a) (long b) ≡ done (long q))
        × (math_mod host (long a) (long b) ≡ done (long r))
        × ((b * q + r) % word ≡ a)
        × (abs (to_signed r) < abs (to_signed b))
  unfolding math_div math_mod
  div_mod_lem a b ha hb hz hm =
      let s = to_signed a in
      let t = to_signed b in
      let (sa, _) = abs-to_signed a ha in
      let (sb, positive) = abs-to_signed b hb in
      let small_rem = rem-lt s t (positive hz) (omega arith) in
      (
        of_signed (quot s t),
        of_signed (rem s t),
        long_div_lem quot a b hz hm,
        long_div_lem rem a b hz hm,
        quot-rem_at s t (of_signed-to_signed a ha) (of_signed-to_signed b hb) (omega arith)
            (positive hz) (omega arith),
        rw (to_signed-of_signed (rem s t) (omega arith)) small_rem,
      )
