-- ===== src/Prelude/Bits.antt =====
-- `&` at variables: the law for the lowest digit, a bound, and a power of two's mask.
use Prim.Native.Nat.{
  ℕ, zero, suc, ◌+◌, ◌-◌, ◌*◌, ◌/◌, ◌%◌, ◌≤◌, ◌<◌, min, bit_and, digits, bit_and-bitwise,
}
use mathlib.Core.Path.{◌≡◌, ap₂}
use mathlib.Core.Bool.{Bool, true, false}
use fluffy_vm.Prelude.Tests.{if◌then◌else◌}
use native.Mathlib.Omega.{arith}

-- The binary digits that two numbers share, at most `k` of them.
abbrev shared : (k x y : ℕ) → ℕ
shared k x y = digits (λ rest. zero) min k x y

nothing_shared : (k y : ℕ) → shared k 0 y ≡ bit_and 0 y
nothing_shared zero y = omega (arith, bit_and-bitwise 0 y)
nothing_shared (suc k) y = omega (arith, bit_and-bitwise 0 y)

-- As many digits as the number itself are enough.
shared-eq-bit_and : (bound k x y : ℕ) → x ≤ k → k ≤ bound → shared k x y ≡ bit_and x y
shared-eq-bit_and bound k zero y small under = nothing_shared k y
shared-eq-bit_and bound zero (suc x) y small under = absurd (omega arith)
shared-eq-bit_and zero (suc k) (suc x) y small under = absurd (omega arith)
shared-eq-bit_and (suc bound) (suc k) (suc x) y small under =
    let half = suc x / 2 in
    let this = shared-eq-bit_and bound k half (y / 2) (omega arith) (omega arith) in
    let that = shared-eq-bit_and bound x half (y / 2) (omega arith) (omega arith) in
    omega (arith, this, that, bit_and-bitwise (suc x) y)

-- The mask of the halves, and of the last digits.
bit_and-halves : (x y : ℕ) → bit_and x y ≡ min (x % 2) (y % 2) + 2 * bit_and (x / 2) (y / 2)
bit_and-halves zero y = omega (arith, bit_and-bitwise 0 y, bit_and-bitwise 0 (y / 2))
bit_and-halves (suc x) y =
    let lower = shared-eq-bit_and x x (suc x / 2) (y / 2) (omega arith) (omega arith) in
    omega (arith, lower, bit_and-bitwise (suc x) y)

under_mask : (bound x mask : ℕ) → x ≤ bound → bit_and x mask ≤ mask
under_mask bound zero mask under = omega (arith, bit_and-bitwise 0 mask)
under_mask zero (suc x) mask under = absurd (omega arith)
under_mask (suc bound) (suc x) mask under =
    let upper = under_mask bound (suc x / 2) (mask / 2) (omega arith) in
    omega (arith, upper, bit_and-halves (suc x) mask)

-- A masked number is at most the mask.
pub bit_and-le : (x mask : ℕ) → bit_and x mask ≤ mask
bit_and-le x mask = under_mask x x mask (omega arith)

-- `x & (x - 1)` of an even number is twice that of its half: doubling keeps a power of two.
pub bit_and-double : (c : ℕ) → 0 < c → bit_and (c * 2) (c * 2 - 1) ≡ bit_and c (c - 1) * 2
bit_and-double c h = omega (arith, bit_and-halves (c * 2) (c * 2 - 1), halves)
  where
    halves : bit_and (c * 2 / 2) ((c * 2 - 1) / 2) ≡ bit_and c (c - 1)
    halves = ap₂ bit_and (omega arith) (omega arith)

-- Whether a condition holds of the numbers less than `bound`, to be computed.
unfoldable pub holds_under : (cond : ℕ → Bool) (bound : ℕ) → Bool
holds_under cond zero = true
holds_under cond (suc k) = let rest = holds_under cond k in if cond k then rest else false

pub holds_under_at :
    (cond : ℕ → Bool) {bound : ℕ} (i : ℕ)
    → i < bound
    → holds_under cond bound ≡ true
    → cond i ≡ true
unfolding holds_under
holds_under_at cond {bound = zero} i under e = absurd (omega arith)
holds_under_at cond {bound = suc k} i under e = ground (arith, holds_under_at cond {bound = k} i)
