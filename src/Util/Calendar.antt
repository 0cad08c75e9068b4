-- ===== src/Util/Calendar.antt =====
-- src/util/util.c: `days_from_epoch` and `util_timegm`. An `int` is an integer here: a result that does
-- not fit into an `int` is undefined in C.
pub mod Civil
use fluffy_vm.Prelude.{ℕ, ◌*◌, Bool, if◌then◌else◌, suc}
use fluffy_vm.Prelude.Int.{ℤ, pos, negsuc, ◌+ℤ◌, ◌-ℤ◌, ltb_ℤ, sub_ℕ}
use fluffy_vm.Value.Math.{quot, rem}

-- The sum and the difference, and the test of an order, as functions that stay shut in proofs.
infixl 65 ◌+◌ ◌-◌
infix 50 ◌<?◌
unfoldable pub ◌+◌ : ℤ → ℤ → ℤ
a + b = a +ℤ b

unfoldable pub ◌-◌ : ℤ → ℤ → ℤ
a - b = a -ℤ b

unfoldable pub ◌<?◌ : ℤ → ℤ → Bool
a <? b = ltb_ℤ a b

-- A product with a constant of the source.
unfoldable pub scale : ℕ → ℤ → ℤ
scale k (pos n) = pos (k * n)
scale k (negsuc n) = sub_ℕ 0 (k * suc n)

-- `doy`, from the month and the day
unfoldable pub day_of_year : ℤ → ℤ → ℤ
unfolding ◌+◌ ◌-◌ ◌<?◌ scale quot
day_of_year m d =
    quot (scale 153 (m + (if pos 2 <? m then negsuc 2 else pos 9)) + pos 2) (pos 5) + d - pos 1

-- `doe`, from the year of the era and the day of the year
unfoldable pub day_of_era : ℤ → ℤ → ℤ
unfolding ◌+◌ ◌-◌ ◌<?◌ scale quot
day_of_era yoe doy = scale 365 yoe + quot yoe (pos 4) - quot yoe (pos 100) + doy

unfoldable pub days_from_epoch : ℤ → ℤ → ℤ → ℤ
unfolding ◌+◌ ◌-◌ ◌<?◌ scale quot day_of_year day_of_era
days_from_epoch year m d =
    let y = if m <? pos 3 then year - pos 1 else year in
    let era = quot y (pos 400) in
    scale 146097 era + day_of_era (y - scale 400 era) (day_of_year m d) - pos 719468

-- `struct tm`, but for the fields that nothing here reads
pub record Tm : Type 0 where
  pub tm_year : ℤ
  pub tm_mon : ℤ
  pub tm_mday : ℤ
  pub tm_hour : ℤ
  pub tm_min : ℤ
  pub tm_sec : ℤ

-- The year and the month from 0 to 11, of a month that may be out of range.
unfoldable pub normalised : ℤ → ℤ → ℤ × ℤ
unfolding ◌+◌ ◌-◌ ◌<?◌ scale quot rem
normalised year month =
    let years_diff = quot (pos 11 - month) (pos 12) in
    if pos 11 <? month
    then (year + quot month (pos 12), rem month (pos 12))
    else if month <? pos 0
    then (year - years_diff, month + scale 12 years_diff)
    else (year, month)

unfoldable pub timegm : Tm → ℤ
unfolding ◌+◌ scale normalised days_from_epoch
timegm t =
    let (year, month) = normalised (t.tm_year + pos 1900) t.tm_mon in
    let days = days_from_epoch year (month + pos 1) t.tm_mday in
    scale 60 (scale 60 (scale 24 days + t.tm_hour) + t.tm_min) + t.tm_sec
