-- ===== src/Prelude/Run.antt =====
-- How a C function ends: it returns, it leaves by `longjmp` to the error handler, or the process
-- dies (a failed `assert`, `abort`, or an access that C does not define) or waits for ever (`deadlock`).
use mathlib.Core.Path.{◌≡◌, refl}

pub data Fault : Type 0 where
  abort assert_failed null_dereference out_of_bounds division_by_zero arithmetic_overflow deadlock :
      Fault

pub data Run {ℓ} (E A : Type ℓ) : Type ℓ where
  done : A → Run E A
  throw : E → Run E A
  crash : Fault → Run E A

infixl 5 ◌>>=◌ ◌>>◌
abbrev pub ◌>>=◌ {ℓ} : {E A B : Type ℓ} → Run E A → (A → Run E B) → Run E B
done a >>= f = f a
throw e >>= f = throw e
crash x >>= f = crash x

abbrev pub ◌>>◌ {ℓ} : {E A B : Type ℓ} → Run E A → Run E B → Run E B
m >> k = m >>= λ _. k

-- The run returns, with a value that satisfies `P`.
abbrev pub Returns {ℓ κ} : {E A : Type ℓ} → Run E A → (A → Type κ) → Type (ℓ ⊔ κ)
Returns {A} r P = (a : A) × (r ≡ done a) × P a

pub >>=-eq-done {ℓ} :
    {E A B : Type ℓ} (m : Run E A) (f : A → Run E B) {b : B}
    → (m >>= f) ≡ done b
    → (a : A) × (m ≡ done a) × (f a ≡ done b)
>>=-eq-done (done a) f h = (a, refl, h)
>>=-eq-done (throw e) f h = cc
>>=-eq-done (crash x) f h = cc

pub same_result {ℓ} : {E A : Type ℓ} {a b : A} (r : Run E A) → r ≡ done a → r ≡ done b → a ≡ b
same_result r h k = cc
