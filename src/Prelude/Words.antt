-- ===== src/Prelude/Words.antt =====
-- `|` of two numbers that share no binary digit, as when a word is put together from its halves.
use native.Mathlib.Nat.{pow-succ'}
use Prim.Native.Nat.{
  ℕ, zero, suc, ◌+◌, ◌*◌, ◌/◌, ◌%◌, ◌^◌, ◌≤◌, ◌<◌, max, bit_or, digits, bit_or-bitwise,
}
use mathlib.Core.Path.{◌≡◌, ◌∙◌, ap, ap₂, refl}
use native.Mathlib.Omega.{arith}

-- The binary digits that are in one of two numbers, with `k` digits of the first to go.
abbrev united : (k x y : ℕ) → ℕ
united k x y = digits (λ rest. rest) max k x y

first_over : (k y : ℕ) → united k 0 y ≡ y
first_over zero y = refl
first_over (suc k) y = refl

united-eq-bit_or : (bound k x y : ℕ) → x ≤ k → k ≤ bound → united k x y ≡ bit_or x y
united-eq-bit_or bound k zero y le fits = first_over k y ∙ omega (arith, bit_or-bitwise 0 y)
united-eq-bit_or bound zero (suc x) y le fits = absurd (omega arith)
united-eq-bit_or zero (suc k) (suc x) y le fits = absurd (omega arith)
united-eq-bit_or (suc bound) (suc k) (suc x) y le fits = omega (
  arith,
  united-eq-bit_or bound k (suc x / 2) (y / 2) (omega arith) (omega arith),
  united-eq-bit_or bound x (suc x / 2) (y / 2) (omega arith) (omega arith),
  bit_or-bitwise (suc x) y,
)

bit_or-zero_left : (y : ℕ) → bit_or 0 y ≡ y
bit_or-zero_left y = omega (arith, bit_or-bitwise 0 y)

bit_or-halves : (x y : ℕ) → bit_or x y ≡ max (x % 2) (y % 2) + 2 * bit_or (x / 2) (y / 2)
bit_or-halves zero y = omega (arith, bit_or-zero_left y, bit_or-zero_left (y / 2))
bit_or-halves (suc x) y = omega (
  arith,
  united-eq-bit_or x x (suc x / 2) (y / 2) (omega arith) (omega arith),
  bit_or-bitwise (suc x) y,
)

bit_or-zero : (bound x : ℕ) → x ≤ bound → bit_or x 0 ≡ x
bit_or-zero bound zero le = bit_or-zero_left 0
bit_or-zero zero (suc x) le = absurd (omega arith)
bit_or-zero (suc bound) (suc x) le =
    omega (arith, bit_or-halves (suc x) 0, bit_or-zero bound (suc x / 2) (omega arith))

one_more : (p l : ℕ) → bit_or p (l / 2) ≡ p + l / 2 → bit_or (2 * p) l ≡ 2 * p + l
one_more p l h =
    let half : 2 * p / 2 ≡ p = omega arith in
    omega (arith, bit_or-halves (2 * p) l, ap (λ (n : ℕ). bit_or n (l / 2)) half, h)

shift-suc : (k h : ℕ) → h * 2 ^ suc k ≡ 2 * (h * 2 ^ k)
shift-suc k h = rw (pow-succ' 2 k) (grind arith)

-- A number moved up by `k` digits, and one of at most `k` digits.
pub bit_or-shift : (k h l : ℕ) → l < 2 ^ k → bit_or (h * 2 ^ k) l ≡ h * 2 ^ k + l
bit_or-shift zero h l lt =
    ap₂ bit_or (omega arith) (omega arith) ∙ bit_or-zero h h (omega arith) ∙ omega arith
bit_or-shift (suc k) h l lt =
    rw (shift-suc k h)
      (one_more (h * 2 ^ k) l (bit_or-shift k h (l / 2) (omega (arith, pow-succ' 2 k))))
