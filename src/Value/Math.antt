-- ===== src/Value/Math.antt =====
-- src/value.c: `mathCommon`, the arithmetic of VALUE_MATH_OPS, `value_math_mod`, `value_math_pow`,
-- `value_is_less` and `value_todouble`. A long is its 64-bit pattern; the overflow that C leaves
-- undefined wraps around, and a division that the machine traps on is a crash.
pub mod Laws
use fluffy_vm.Prelude.{
  ℕ, suc, ◌+◌, ◌-◌, ◌*◌, ◌/◌, ◌%◌, ◌^◌, Bool, true, false, ◌==◌, ◌&&◌, if◌then◌else◌, ltb,
}
use fluffy_vm.Prelude.Int.{ℤ, pos, negsuc, word, to_signed, of_signed, sub_ℕ, ltb_ℤ}
use fluffy_vm.Prelude.Run.{
  Run, done, throw, crash, abort, division_by_zero, arithmetic_overflow, ◌>>=◌, ◌>>◌,
}
use fluffy_vm.Value.{Value, Host, Strtod, partial, errno, number, not_present, double, long, string}
use fluffy_vm.Value.Error.{
  Err, static, math_of, strtod_errno, unset, strtod_did_not_process_all_the_data, MathOp, op_add,
  op_sub, op_mul, op_div, op_mod, op_pow, op_is_less,
}
use fluffy_vm.Value.Kind.{check_present, is_numeric, typename}
use fluffy_vm.Value.Equal.{Comparison, inapplicable, comparison_of}

-- C's `/` and `%`: the quotient is rounded towards zero, the remainder has the dividend's sign.
unfoldable pub quot : ℤ → ℤ → ℤ
quot (pos a) (pos b) = pos (a / b)
quot (pos a) (negsuc b) = sub_ℕ 0 (a / suc b)
quot (negsuc a) (pos b) = sub_ℕ 0 (suc a / b)
quot (negsuc a) (negsuc b) = pos (suc a / suc b)

unfoldable pub rem : ℤ → ℤ → ℤ
rem (pos a) (pos b) = pos (a % b)
rem (pos a) (negsuc b) = pos (a % suc b)
rem (negsuc a) (pos b) = sub_ℕ 0 (suc a % b)
rem (negsuc a) (negsuc b) = sub_ℕ 0 (suc a % suc b)

abbrev pub long_min : ℕ
long_min = 2 ^ 63

module _ {D : Type 0} where
  unfoldable pub of_strtod : Strtod D → Run (Err D) (Value D)
  of_strtod partial = throw (static strtod_did_not_process_all_the_data)
  of_strtod (errno n) = throw (strtod_errno n)
  of_strtod (number x) = done (double x)

  -- The machine's division traps on a zero divisor, and on INT64_MIN / -1.
  unfoldable pub long_div : (ℤ → ℤ → ℤ) → ℕ → ℕ → Run (Err D) (Value D)
  long_div op a b =
      if b == 0
      then crash division_by_zero
      else if a == long_min && b == word - 1
      then crash arithmetic_overflow
      else done (long (of_signed (op (to_signed a) (to_signed b))))

module _ {D : Type 0} (host : Host D) where
  -- `(double) value.data.longNum` of a string goes through `strtod`. The last case sets no message.
  unfoldable pub to_double : Value D → Run (Err D) (Value D)
  unfolding of_strtod
  to_double (string s) = of_strtod (host.strtod s.bytes)
  to_double (long n) = done (double (host.of_long (to_signed n)))
  to_double (double x) = done (double x)
  to_double not_present = crash abort
  to_double _ = throw unset

  -- The conversions of `mathCommon`, once both operands are numeric.
  coerce : Value D → Value D → Run (Err D) (Value D × Value D)
  unfolding to_double
  coerce (long a) (long b) = done (long a, long b)
  coerce (double x) (double y) = done (double x, double y)
  coerce (double x) b = do b' ← to_double b; done (double x, b')
  coerce a b = do a' ← to_double a; done (a', b)

  math_error : MathOp → Value D → Value D → Run (Err D) (Value D × Value D)
  unfolding typename
  math_error op a b = do s ← typename a; t ← typename b; throw (math_of op s t)

  -- `!value_is_numeric(*op1) || !value_is_numeric(*op2)` does not look at the second operand of a
  -- non-numeric first one.
  both_numeric : Value D → Value D → Run (Err D) Bool
  unfolding is_numeric
  both_numeric a b = do n ← is_numeric a; if n then is_numeric b else done false

  unfoldable pub math_common : MathOp → Value D → Value D → Run (Err D) (Value D × Value D)
  unfolding both_numeric coerce math_error
  math_common op a b = do n ← both_numeric a b; if n then coerce a b else math_error op a b

  -- The `switch (op1.type)` after the conversions.
  dispatch :
      {R : Type 0} → (ℕ → ℕ → Run (Err D) R) → (D → D → R) → Value D × Value D → Run (Err D) R
  dispatch f g (long a, long b) = f a b
  dispatch f g (double x, double y) = done (g x y)
  dispatch f g _ = crash abort

  unfoldable pub math_add : Value D → Value D → Run (Err D) (Value D)
  unfolding math_common dispatch
  math_add a b = do
    p ← math_common op_add a b
    dispatch (λ m n. done (long ((m + n) % word))) (λ x y. double (host.add x y)) p

  unfoldable pub math_sub : Value D → Value D → Run (Err D) (Value D)
  unfolding math_common dispatch
  math_sub a b = do
    p ← math_common op_sub a b
    dispatch (λ m n. done (long ((m + word - n) % word))) (λ x y. double (host.sub x y)) p

  unfoldable pub math_mul : Value D → Value D → Run (Err D) (Value D)
  unfolding math_common dispatch
  math_mul a b = do
    p ← math_common op_mul a b
    dispatch (λ m n. done (long ((m * n) % word))) (λ x y. double (host.mul x y)) p

  unfoldable pub math_div : Value D → Value D → Run (Err D) (Value D)
  unfolding math_common dispatch
  math_div a b = do
    p ← math_common op_div a b
    dispatch (long_div quot) (λ x y. double (host.div x y)) p

  unfoldable pub math_mod : Value D → Value D → Run (Err D) (Value D)
  unfolding math_common dispatch
  math_mod a b = do
    p ← math_common op_mod a b
    dispatch (long_div rem) (λ x y. double (host.fmod x y)) p

  -- Two longs are converted to double by the call of `pow`.
  unfoldable pub math_pow : Value D → Value D → Run (Err D) (Value D)
  unfolding math_common dispatch
  math_pow a b = do
    p ← math_common op_pow a b
    dispatch
        (λ m n. done (double (host.pow (host.of_long (to_signed m)) (host.of_long (to_signed n)))))
        (λ x y. double (host.pow x y)) p

  -- Both cases compare `longNum`: for doubles, that is their bit patterns as signed integers.
  less_of : Value D × Value D → Run (Err D) Comparison
  unfolding dispatch
  less_of p =
      dispatch (λ m n. done (comparison_of (ltb_ℤ (to_signed m) (to_signed n))))
        (λ x y. comparison_of (ltb_ℤ (to_signed (host.bits x)) (to_signed (host.bits y)))) p

  or_inapplicable : Run (Err D) (Value D × Value D) → Run (Err D) Comparison
  unfolding less_of
  or_inapplicable (done p) = less_of p
  or_inapplicable (throw e) = done inapplicable
  or_inapplicable (crash f) = crash f

  -- The message that `mathCommon` leaves in `errmsg` is not part of the result.
  unfoldable pub is_less : Value D → Value D → Run (Err D) Comparison
  unfolding math_common or_inapplicable
  is_less a b = or_inapplicable (math_common op_is_less a b)
