-- ===== src/Util/Iso8601/Laws.antt =====
-- A date and time in the form that `util_parse_iso8601` of src/util/util.c expects.
use fluffy_vm.Prelude.{
  ℕ, ◌+◌, ◌-◌, ◌*◌, ◌/◌, ◌%◌, ◌^◌, ◌<◌, ◌≤◌, ◌≡◌, refl, ap, ap₂, ◌∙◌, arith, true, false, List, [],
  ◌∷◌, none, some, leb, ltb, ◌==◌, ◌⊎◌, inl, inr, ◌&&◌, if◌then◌else◌,
}
use fluffy_vm.Prelude.Int.{pos, sub_ℕ, ◌-ℤ◌}
use fluffy_vm.Util.Calendar.Civil.{civil_day, timegm_lem}
use fluffy_vm.Util.Iso8601.{
  is_space, is_digit, leading_digits, clamp, signed_digits, strtol, to_int, as_int, parse_int,
  parse_fields, parse_iso8601,
}

-- Two digits and four.
abbrev pub two : ℕ → List ℕ → List ℕ
two n rest = (b'0' + n / 10) ∷ (b'0' + n % 10) ∷ rest

abbrev pub four : ℕ → List ℕ → List ℕ
four n rest = two (n / 100) (two (n % 100) rest)

leading_digits-step :
    (acc d : ℕ) (rest : List ℕ)
    → d < 10
    → leading_digits acc ((b'0' + d) ∷ rest) ≡ leading_digits (10 * acc + d) rest
unfolding leading_digits
leading_digits-step acc d rest h =
    let digit : (leb b'0' (b'0' + d) && leb (b'0' + d) b'9') ≡ true = ground arith in
    let value : b'0' + d - b'0' ≡ d = omega arith in rw (digit, value) refl

leading_digits-end :
    (acc c : ℕ) (rest : List ℕ) → c < b'0' ⊎ b'9' < c → leading_digits acc (c ∷ rest) ≡ acc
unfolding leading_digits
leading_digits-end acc c rest h = ground arith

is_space-digit : (d : ℕ) → is_space (b'0' + d) ≡ false
unfolding is_space
is_space-digit d = ground arith

is_digit-digit : (d : ℕ) → d < 10 → is_digit (b'0' + d) ≡ true
unfolding is_digit
is_digit-digit d h = ground arith

signed_digits-digits :
    (d n : ℕ) (rest : List ℕ)
    → d < 10
    → n < 2 ^ 31
    → leading_digits 0 ((b'0' + d) ∷ rest) ≡ n
    → signed_digits false ((b'0' + d) ∷ rest) ≡ some (pos n)
unfolding signed_digits leading_digits clamp
signed_digits-digits d n rest hd hn e =
    let small : ltb n (2 ^ 63) ≡ true = ground arith in
    ap (λ b. if b then some (clamp false (leading_digits 0 ((b'0' + d) ∷ rest))) else none)
      (is_digit-digit d hd)
    ∙ ap (λ k. some (clamp false k)) e
    ∙ rw small refl

strtol-digit :
    (d : ℕ) (rest : List ℕ) → strtol ((b'0' + d) ∷ rest) ≡ signed_digits false ((b'0' + d) ∷ rest)
unfolding strtol
strtol-digit d rest =
    let no_minus : (b'0' + d == b'-') ≡ false = ground arith in
    let no_plus : (b'0' + d == b'+') ≡ false = ground arith in
    rw (is_space-digit d, no_minus, no_plus) refl

to_int-small : (n : ℕ) → n < 2 ^ 31 → to_int (pos n) ≡ pos n
unfolding to_int
to_int-small n h =
    let word : n % 2 ^ 32 ≡ n = omega arith in
    let small : ltb n (2 ^ 31) ≡ true = ground arith in rw (word, small) refl

parse_int-digits :
    (d n : ℕ) (rest : List ℕ)
    → d < 10
    → n < 2 ^ 31
    → leading_digits 0 ((b'0' + d) ∷ rest) ≡ n
    → parse_int ((b'0' + d) ∷ rest) ≡ some (pos n)
unfolding parse_int as_int
parse_int-digits d n rest hd hn e =
    ap as_int (strtol-digit d rest ∙ signed_digits-digits d n rest hd hn e)
    ∙ ap some (to_int-small n hn)

-- Two digits before something else, and four.
parse_int-two :
    (n c : ℕ) (rest : List ℕ)
    → n < 100
    → c < b'0' ⊎ b'9' < c
    → parse_int (two n (c ∷ rest)) ≡ some (pos n)
parse_int-two n c rest h end =
    parse_int-digits (n / 10) n ((b'0' + n % 10) ∷ c ∷ rest) (omega arith) (omega arith) (
      leading_digits-step 0 (n / 10) _ (omega arith)
      ∙ leading_digits-step (10 * 0 + n / 10) (n % 10) _ (omega arith)
      ∙ leading_digits-end _ c rest end
      ∙ omega arith)

parse_int-four :
    (n c : ℕ) (rest : List ℕ)
    → n < 10000
    → c < b'0' ⊎ b'9' < c
    → parse_int (four n (c ∷ rest)) ≡ some (pos n)
parse_int-four n c rest h end = parse_int-digits (n / 100 / 10) n _ (omega arith) (omega arith) (
    leading_digits-step 0 (n / 100 / 10) _ (omega arith)
    ∙ leading_digits-step _ (n / 100 % 10) _ (omega arith)
    ∙ leading_digits-step _ (n % 100 / 10) _ (omega arith)
    ∙ leading_digits-step _ (n % 100 % 10) _ (omega arith)
    ∙ leading_digits-end _ c rest end
    ∙ omega arith)

-- A text of this form, with the year, the month, the day, the hour, the minute and the second.
abbrev pub timestamp : ℕ → ℕ → ℕ → ℕ → ℕ → ℕ → List ℕ
timestamp y m d h mi s =
    four y (b'-' ∷ two m (b'-' ∷ two d (b'T' ∷ two h (b':' ∷ two mi (b':' ∷ two s (b'Z' ∷ []))))))

parse_fields-timestamp :
    (y m d h mi s : ℕ)
    → y < 10000
    → m < 100
    → d < 100
    → h < 100
    → mi < 100
    → s < 100
    → parse_fields (timestamp y m d h mi s)
      ≡ some (record {
        tm_year = pos y -ℤ pos 1900;
        tm_mon = pos m -ℤ pos 1;
        tm_mday = pos d;
        tm_hour = pos h;
        tm_min = pos mi;
        tm_sec = pos s;
      })
unfolding parse_fields
parse_fields-timestamp y m d h mi s hy hm hd hh hmi hs =
    rw
      (
        parse_int-four y b'-' _ hy (inl (omega arith)),
        parse_int-two m b'-' _ hm (inl (omega arith)),
        parse_int-two d b'T' _ hd (inr (omega arith)),
        parse_int-two h b':' _ hh (inr (omega arith)),
        parse_int-two mi b':' _ hmi (inr (omega arith)),
        parse_int-two s b'Z' _ hs (inr (omega arith)),
      )
      refl

difference : (a b : ℕ) → pos a -ℤ pos b ≡ sub_ℕ a b
difference a b = ground arith

-- `util_parse_iso8601` of "YYYY-MM-DDThh:mm:ssZ", from the year 1 on and for a month from 1 to 12, is the number of
-- seconds from the first of January 1970 to that time in the Gregorian calendar.
pub parse_iso8601_lem :
    (y m d h mi s : ℕ)
    → 0 < y
    → y < 10000
    → 0 < m
    → m ≤ 12
    → 0 < d
    → d < 100
    → h < 100
    → mi < 100
    → s < 100
    → parse_iso8601 (timestamp y m d h mi s)
      ≡ sub_ℕ (86400 * civil_day y (m - 1) d + 3600 * h + 60 * mi + s) (86400 * 719162)
unfolding parse_iso8601
parse_iso8601_lem y m d h mi s hy hy' hm hm' hd hd' hh hmi hs =
    let year : y + (m - 1) / 12 ≡ y = omega arith in
    let month : (m - 1) % 12 ≡ m - 1 = omega arith in
    let first : pos m -ℤ pos 1 ≡ pos (m - 1) = difference m 1 ∙ ground arith in
    rw (parse_fields-timestamp y m d h mi s hy' (omega arith) hd' hh hmi hs) (
      timegm_lem _ y (m - 1) d h mi s hy hd (difference y 1900) first refl refl refl refl
      ∙ ap₂ (λ (a b : ℕ). sub_ℕ (86400 * civil_day a b d + 3600 * h + 60 * mi + s) (86400 * 719162))
          year month)
