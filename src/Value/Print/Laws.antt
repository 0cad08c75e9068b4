-- ===== src/Value/Print/Laws.antt =====
-- A long that `value_tostring` of src/value.c prints can be read back.
use fluffy_vm.Prelude.{
  ℕ, zero, suc, ◌+◌, ◌-◌, ◌*◌, ◌/◌, ◌%◌, ◌<◌, ◌≡◌, refl, ap, ◌∙◌, arith, false, ltb→lt, Bool-cases,
  inl, inr, List, [], ◌∷◌, some, ltb, ◌==◌, if◌then◌else◌,
}
use fluffy_vm.Prelude.Int.{ℤ, pos, negsuc, sub_ℕ, to_signed}
use fluffy_vm.Prelude.Run.{done}
use fluffy_vm.Value.{Str, Host, long, string}
use fluffy_vm.Value.Error.{StaticString}
use fluffy_vm.Value.Print.{digit, digits, print_long, tostring}

-- Decimal notation: the number that digits stand for after `acc`, and a number with its sign.
unfoldable pub read_digits : ℕ → List ℕ → ℕ
read_digits acc [] = acc
read_digits acc (c ∷ cs) = read_digits (10 * acc + (c - b'0')) cs

unfoldable pub read_long : List ℕ → ℤ
unfolding read_digits
read_long [] = pos 0
read_long (c ∷ cs) = if c == b'-' then sub_ℕ 0 (read_digits 0 cs) else pos (read_digits 0 (c ∷ cs))

digit-value : (d : ℕ) → d < 10 → digit d - b'0' ≡ d
unfolding digit
digit-value d h = ground arith

digit-not_minus : (d : ℕ) → (digit d == b'-') ≡ false
unfolding digit
digit-not_minus d = ground arith

-- What the printed digits stand for, with those behind them.
read_digits-digits :
    (fuel n : ℕ) (rest : List ℕ)
    → n < fuel
    → read_digits 0 (digits 10 fuel n rest) ≡ read_digits n rest
unfolding read_digits digits
read_digits-digits zero n rest h = absurd (omega arith)
read_digits-digits (suc fuel) n rest h = elim (Bool-cases (ltb n 10)) [
  | inl e ↦
      rw e (ap (λ (k : ℕ). read_digits k rest) (ground (arith, digit-value n (ltb→lt n 10 e))))
  | inr e ↦ rw e (
      read_digits-digits fuel (n / 10) (digit (n % 10) ∷ rest) (ground arith)
      ∙ ap (λ (k : ℕ). read_digits k rest) (omega (arith, digit-value (n % 10) (omega arith))))
]

-- The first digit.
digits-head :
    (fuel n c : ℕ) (cs : List ℕ)
    → (c == b'-') ≡ false
    → (d : ℕ) × (ds : List ℕ) × (digits 10 fuel n (c ∷ cs) ≡ d ∷ ds) × ((d == b'-') ≡ false)
unfolding digits
digits-head zero n c cs h = (c, cs, refl, h)
digits-head (suc fuel) n c cs h = elim (Bool-cases (ltb n 10)) [
  | inl e ↦ (digit n, c ∷ cs, rw e refl, digit-not_minus n)
  | inr e ↦ rw e (digits-head fuel (n / 10) (digit (n % 10)) (c ∷ cs) (digit-not_minus (n % 10)))
]

digits-head_nil :
    (fuel n : ℕ)
    → (d : ℕ) × (ds : List ℕ) × (digits 10 (suc fuel) n [] ≡ d ∷ ds) × ((d == b'-') ≡ false)
unfolding digits
digits-head_nil fuel n = elim (Bool-cases (ltb n 10)) [
  | inl e ↦ (digit n, [], rw e refl, digit-not_minus n)
  | inr e ↦ rw e (digits-head fuel (n / 10) (digit (n % 10)) [] (digit-not_minus (n % 10)))
]

read_long-print_long : (z : ℤ) → read_long (print_long z) ≡ z
unfolding read_long print_long
read_long-print_long (pos n) =
    let (d, ds, e, h) = digits-head_nil n n in
    ap read_long e ∙ rw (h, ← e) (ap pos (read_digits-digits (suc n) n [] (omega arith)))
read_long-print_long (negsuc n) =
    ap (λ k. sub_ℕ 0 k) (read_digits-digits (suc (suc n)) (suc n) [] (omega arith)) ∙ ground arith

-- `value_tostring` of a long makes a string whose decimal notation stands for that long.
pub tostring-read_long :
    {D : Type 0} (host : Host D) (text : StaticString → Str) (address w : ℕ)
    → (s : Str) × (tostring host text (some address) (long w) ≡ done (string s))
      × (read_long s.bytes ≡ to_signed w)
unfolding tostring
tostring-read_long host text address w = (
  record { address = address; bytes = print_long (to_signed w); hash_code = 0 },
  refl,
  read_long-print_long (to_signed w),
)
