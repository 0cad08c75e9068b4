-- ===== src/Util/Iso8601.antt =====
-- src/util/util.c: `util_parse_iso8601` and the `strtol` in base 10 that it calls, on the bytes of a text without its
-- terminator. A `long` is 64 bits wide and an `int` 32.
pub mod Laws
use fluffy_vm.Prelude.{
  ℕ, zero, suc, ◌+◌, ◌-◌, ◌*◌, ◌%◌, ◌^◌, Bool, true, false, ◌&&◌, ◌||◌, List, [], ◌∷◌, Option, none,
  some, ◌==◌, ltb, leb, if◌then◌else◌, length, drop,
}
use fluffy_vm.Prelude.Int.{ℤ, pos, negsuc, ◌-ℤ◌, sub_ℕ}
use fluffy_vm.Util.Calendar.{Tm, timegm}

unfoldable pub is_space : ℕ → Bool
is_space c = c == 32 || leb 9 c && leb c 13

unfoldable pub is_digit : ℕ → Bool
is_digit c = leb b'0' c && leb c b'9'

-- The digits that a text starts with, after those that `acc` stands for.
unfoldable pub leading_digits : ℕ → List ℕ → ℕ
leading_digits acc [] = acc
leading_digits acc (c ∷ cs) =
    let rest = leading_digits (10 * acc + (c - b'0')) cs in
    if leb b'0' c && leb c b'9' then rest else acc

-- At most LONG_MAX, and at least LONG_MIN.
unfoldable pub clamp : Bool → ℕ → ℤ
clamp true n = sub_ℕ 0 (if leb n (2 ^ 63) then n else 2 ^ 63)
clamp false n = pos (if ltb n (2 ^ 63) then n else 2 ^ 63 - 1)

-- A magnitude behind its sign; none where there is no digit.
unfoldable pub signed_digits : Bool → List ℕ → Option ℤ
unfolding is_digit leading_digits clamp
signed_digits negative [] = none
signed_digits negative (c ∷ cs) =
    if is_digit c then some (clamp negative (leading_digits 0 (c ∷ cs))) else none

-- `strtol`: none where `endptr == value`.
unfoldable pub strtol : List ℕ → Option ℤ
unfolding is_space signed_digits
strtol [] = none
strtol (c ∷ cs) =
    let rest = strtol cs in
    if is_space c
    then rest
    else if c == b'-'
    then signed_digits true cs
    else if c == b'+'
    then signed_digits false cs
    else signed_digits false (c ∷ cs)

-- A `long` as an `int`.
unfoldable pub to_int : ℤ → ℤ
to_int (pos n) = let m = n % 2 ^ 32 in if ltb m (2 ^ 31) then pos m else sub_ℕ m (2 ^ 32)
to_int (negsuc n) =
    let m = 2 ^ 32 - 1 - n % 2 ^ 32 in if ltb m (2 ^ 31) then pos m else sub_ℕ m (2 ^ 32)

unfoldable pub as_int : Option ℤ → Option ℤ
unfolding to_int
as_int none = none
as_int (some z) = some (to_int z)

-- `ParseInt`, where `success` is cleared by none.
unfoldable pub parse_int : List ℕ → Option ℤ
unfolding strtol as_int
parse_int text = as_int (strtol text)

-- `if (!status) return -1;` between two calls
infixl 1 ◌>>=◌
unfoldable pub ◌>>=◌ : {A B : Type 0} → Option A → (A → Option B) → Option B
none >>= k = none
some a >>= k = k a

-- `time`, when all six fields are there.
unfoldable pub parse_fields : List ℕ → Option Tm
unfolding ◌>>=◌ parse_int
parse_fields input = do
  year ← parse_int input
  mon ← parse_int (drop 5 input)
  mday ← parse_int (drop 8 input)
  hour ← parse_int (drop 11 input)
  min ← parse_int (drop 14 input)
  sec ← parse_int (drop 17 input)
  some (record {
    tm_year = year -ℤ pos 1900;
    tm_mon = mon -ℤ pos 1;
    tm_mday = mday;
    tm_hour = hour;
    tm_min = min;
    tm_sec = sec;
  })

unfoldable pub parse_iso8601 : List ℕ → ℤ
unfolding parse_fields timegm
parse_iso8601 input =
    if ltb (length input) 20
    then negsuc 0
    else elim (parse_fields input) [ none ↦ negsuc 0 | some t ↦ timegm t ]
