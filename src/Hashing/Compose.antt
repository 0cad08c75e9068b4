-- ===== src/Hashing/Compose.antt =====
-- The OpenJDK hash of src/hashing.c is a polynomial.
use native.Mathlib.Nat.{pow-suc, div-add-mod}
use fluffy_vm.Prelude.{ℕ, ◌+◌, ◌*◌, ◌%◌, ◌^◌, ◌<◌, ◌≡◌, List, [], ◌∷◌, length, arith, ap, ◌∙◌}
use fluffy_vm.Prelude.Int.{word}
use fluffy_vm.Hashing.{openjdk8_from, hash_openjdk8}

-- The polynomial in 31 whose coefficients are the bytes, the first byte at the highest power.
abbrev pub poly : List ℕ → ℕ
poly [] = 0
poly (b ∷ bs) = b * 31 ^ length bs + poly bs

mod_absorb : (x y z : ℕ) → (x % word * y + z) % word ≡ (x * y + z) % word
mod_absorb x y z = omega (arith, ap (λ (t : ℕ). t * y) (div-add-mod x word))

openjdk8_from-poly :
    (h : ℕ) (bs : List ℕ) → h < word → openjdk8_from h bs ≡ (h * 31 ^ length bs + poly bs) % word
unfolding openjdk8_from
openjdk8_from-poly h [] lt = omega arith
openjdk8_from-poly h (b ∷ bs) lt =
    openjdk8_from-poly ((31 * h + b) % word) bs (omega arith)
    ∙ mod_absorb (31 * h + b) (31 ^ length bs) (poly bs)
    ∙ ap (λ (t : ℕ). t % word) (omega (arith, ap (λ (t : ℕ). h * t) (pow-suc 31 (length bs))))

-- `hashing_hash_openjdk8` is the polynomial of the bytes modulo 2 ^ 64.
pub hash_openjdk8-poly : (bytes : List ℕ) → hash_openjdk8 bytes ≡ poly bytes % word
unfolding hash_openjdk8
hash_openjdk8-poly bytes =
    openjdk8_from-poly 0 bytes (omega arith) ∙ ap (λ (t : ℕ). t % word) (omega arith)
