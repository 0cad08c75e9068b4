-- ===== src/Util/Calendar/Civil.antt =====
-- The Gregorian calendar, day by day, and `util_timegm` of src/util/util.c against it.
use fluffy_vm.Prelude.{
  ℕ, zero, suc, ◌+◌, ◌-◌, ◌*◌, ◌/◌, ◌%◌, ◌≤◌, ◌<◌, ◌≡◌, refl, arith, Bool, Bool-cases, inl, inr,
  true, false, not, ◌&&◌, ◌||◌, ◌==◌, if◌then◌else◌, ltb,
}
use fluffy_vm.Prelude.Int.{pos, sub_ℕ}
use fluffy_vm.Value.Math.{quot, rem}
use fluffy_vm.Util.Calendar
use fluffy_vm.Util.Calendar.{
  scale, day_of_year, day_of_era, days_from_epoch, Tm, normalised, timegm,
}

-- The rule of the Gregorian calendar, the lengths of its months from January, number 0, and the days of
-- the first years and of a year's first months.
unfoldable pub is_leap : ℕ → Bool
is_leap y = (y % 4 == 0) && (not (y % 100 == 0) || (y % 400 == 0))

unfoldable pub month_length : Bool → ℕ → ℕ
month_length leap m =
    if m == 1
    then (if leap then 29 else 28)
    else if (m == 3) || (m == 5) || (m == 8) || (m == 10)
    then 30
    else 31

unfoldable pub days_in_years : ℕ → ℕ
days_in_years zero = 0
days_in_years (suc y) = days_in_years y + (if is_leap (suc y) then 366 else 365)

unfoldable pub days_in_months : Bool → ℕ → ℕ
days_in_months leap zero = 0
days_in_months leap (suc m) = days_in_months leap m + month_length leap m

days_in_years-closed : (y : ℕ) → days_in_years y + y / 100 ≡ 365 * y + y / 4 + y / 400
unfolding days_in_years is_leap
days_in_years-closed zero = refl
days_in_years-closed (suc y) = ground (arith, days_in_years-closed y)

add-pos : (a b : ℕ) → Calendar.◌+◌ (pos a) (pos b) ≡ pos (a + b)
unfolding Calendar.◌+◌
add-pos a b = ground arith

sub-pos : (a b : ℕ) → b ≤ a → Calendar.◌-◌ (pos a) (pos b) ≡ pos (a - b)
unfolding Calendar.◌-◌
sub-pos a b h = ground arith

-- The day of a year that begins in March.
day_of_year_lem :
    (m d : ℕ)
    → 0 < m
    → m ≤ 12
    → 0 < d
    → day_of_year (pos m) (pos d) ≡ pos ((153 * ((m + 9) % 12) + 2) / 5 + (d - 1))
unfolding day_of_year Calendar.◌<?◌ Calendar.◌+◌ Calendar.◌-◌ scale quot
day_of_year_lem m d h k p = ground arith

-- The days from the first of March of year 0 to a day of the year that begins in March of year `n`.
march_year :
    (n doy : ℕ)
    → Calendar.◌-◌
        (Calendar.◌+◌
          (scale 146097 (quot (pos n) (pos 400)))
          (day_of_era (Calendar.◌-◌ (pos n) (scale 400 (quot (pos n) (pos 400)))) (pos doy)))
        (pos 719468)
      ≡ sub_ℕ (365 * n + n / 4 + n / 400 + doy) (n / 100 + 719468)
unfolding day_of_era Calendar.◌+◌ Calendar.◌-◌ scale quot
march_year n doy = ground arith

months_from_march :
    (leap : Bool) (k : ℕ)
    → k < 12
    → days_in_months leap k + 306
      ≡ (153 * ((k + 10) % 12) + 2) / 5 + (if ltb 1 k then (if leap then 366 else 365) else 0)
unfolding days_in_months month_length
months_from_march true zero h = omega arith
months_from_march true (suc k) h = ground (arith, months_from_march true k)
months_from_march false zero h = omega arith
months_from_march false (suc k) h = ground (arith, months_from_march false k)

-- The day number of a date, from the first day of year 1.
unfoldable pub civil_day : ℕ → ℕ → ℕ → ℕ
unfolding days_in_years days_in_months
civil_day y k d = days_in_years (y - 1) + days_in_months (is_leap y) k + (d - 1)

sub_ℕ_eq : (a b c d : ℕ) → a + d ≡ c + b → sub_ℕ a b ≡ sub_ℕ c d
sub_ℕ_eq a b c d h = ground arith

days_in_years-prev :
    (y : ℕ) → 0 < y → days_in_years y ≡ days_in_years (y - 1) + (if is_leap y then 366 else 365)
unfolding days_in_years
days_in_years-prev zero h = absurd (omega arith)
days_in_years-prev (suc y) h = let same : suc y - 1 ≡ y = omega arith in rw same refl

before_march : (k : ℕ) → Calendar.◌<?◌ (pos (k + 1)) (pos 3) ≡ true → k < 2
unfolding Calendar.◌<?◌
before_march k h = ground arith

after_march : (k : ℕ) → Calendar.◌<?◌ (pos (k + 1)) (pos 3) ≡ false → 1 < k
unfolding Calendar.◌<?◌
after_march k h = ground arith

-- `days_from_epoch` of a date from year 1 on, with its month from 1 to 12, is its day number in the
-- calendar less that of the first of January 1970.
pub days_from_epoch_lem :
    (y k d : ℕ)
    → 0 < y
    → k < 12
    → 0 < d
    → days_from_epoch (pos y) (pos (k + 1)) (pos d) ≡ sub_ℕ (civil_day y k d) 719162
unfolding days_from_epoch civil_day
days_from_epoch_lem y k d hy hk hd = elim (Bool-cases (Calendar.◌<?◌ (pos (k + 1)) (pos 3))) [
  | inl early ↦
      rw
        (
          early,
          day_of_year_lem (k + 1) d (omega arith) (omega arith) hd,
          sub-pos y 1 hy,
          march_year,
        )
        (sub_ℕ_eq _ _ _ _ (
          ground (
            arith,
            before_march k early,
            days_in_years-closed (y - 1),
            months_from_march (is_leap y) k hk,
          )))
  | inr late ↦
      rw (late, day_of_year_lem (k + 1) d (omega arith) (omega arith) hd, march_year)
        (sub_ℕ_eq _ _ _ _ (
          ground (
            arith,
            after_march k late,
            days_in_years-closed y,
            days_in_years-prev y,
            months_from_march (is_leap y) k hk,
          )))
]

scale_60 : (a b : ℕ) → scale 60 (sub_ℕ a b) ≡ sub_ℕ (60 * a) (60 * b)
unfolding scale
scale_60 a b = ground arith

scale_24 : (a b : ℕ) → scale 24 (sub_ℕ a b) ≡ sub_ℕ (24 * a) (24 * b)
unfolding scale
scale_24 a b = ground arith

add-sub_ℕ : (a b n : ℕ) → Calendar.◌+◌ (sub_ℕ a b) (pos n) ≡ sub_ℕ (a + n) b
unfolding Calendar.◌+◌
add-sub_ℕ a b n = ground arith

normalised_lem : (y k : ℕ) → normalised (pos y) (pos k) ≡ (pos (y + k / 12), pos (k % 12))
unfolding normalised Calendar.◌+◌ Calendar.◌-◌ Calendar.◌<?◌ quot rem
normalised_lem y k = ground arith

-- `util_timegm` of a time from year 1 on, whose month may be past December: the month's number carries
-- over into the year, and the result is the number of seconds from the first of January 1970 in the
-- Gregorian calendar, with no leap seconds.
pub timegm_lem :
    (t : Tm) (y k d h mi s : ℕ)
    → 0 < y
    → 0 < d
    → t.tm_year ≡ sub_ℕ y 1900
    → t.tm_mon ≡ pos k
    → t.tm_mday ≡ pos d
    → t.tm_hour ≡ pos h
    → t.tm_min ≡ pos mi
    → t.tm_sec ≡ pos s
    → timegm t
      ≡ sub_ℕ (86400 * civil_day (y + k / 12) (k % 12) d + 3600 * h + 60 * mi + s) (86400 * 719162)
unfolding timegm
timegm_lem t y k d h mi s hy hd ey ek ed eh emi es =
    let year : Calendar.◌+◌ t.tm_year (pos 1900) ≡ pos y = rw (ey, add-sub_ℕ) (ground arith) in
    rw
      (
        year,
        ek,
        ed,
        eh,
        emi,
        es,
        normalised_lem,
        add-pos,
        days_from_epoch_lem (y + k / 12) (k % 12) d (omega arith) (omega arith) hd,
        scale_24,
        add-sub_ℕ,
        scale_60 (24 * civil_day (y + k / 12) (k % 12) d + h) (24 * 719162),
        add-sub_ℕ,
        scale_60,
        add-sub_ℕ,
      )
      (sub_ℕ_eq _ _ _ _ (omega arith))
