-- ===== src/Tests/Texts.antt =====
-- Dates, and numbers as text.
use fluffy_vm.Prelude.{◌-◌, ◌+◌, ◌*◌, ◌≡◌, refl, arith, [], ◌∷◌, some}
use fluffy_vm.Prelude.Int.{pos, negsuc, sub_ℕ, to_signed}
use fluffy_vm.Prelude.Run.{done}
use fluffy_vm.Value.{Str, long, string}
use fluffy_vm.Value.Print.{print_long, tostring}
use fluffy_vm.Value.Print.Laws.{read_long, tostring-read_long}
use fluffy_vm.Tests.Machine.{machine}
use fluffy_vm.Util.Iso8601.{parse_iso8601}
use fluffy_vm.Util.Iso8601.Laws.{timestamp, parse_iso8601_lem}
use fluffy_vm.Util.Calendar.{Tm, timegm}
use fluffy_vm.Util.Calendar.Civil.{civil_day}

-- 2022-07-05 04:03:02, as July of 2022 and as the 19th month of 2021.
abbrev summer : Tm
summer = record {
  tm_year = pos 121;
  tm_mon = pos 18;
  tm_mday = pos 5;
  tm_hour = pos 4;
  tm_min = pos 3;
  tm_sec = pos 2;
}

summer_seconds : timegm summer ≡ pos 1656993782
unfolding timegm
summer_seconds = refl

printed : print_long (negsuc 122) ≡ b'-' ∷ b'1' ∷ b'2' ∷ b'3' ∷ []
unfolding print_long
printed = refl

tostring-read_long_example :
    (s : Str) × (tostring machine
        (λ e. record { address = 0; bytes = []; hash_code = 0 })
        (some 7)
        (long 1234)
      ≡ done (string s))
    × (read_long s.bytes ≡ to_signed 1234)
tostring-read_long_example =
    tostring-read_long machine (λ e. record { address = 0; bytes = []; hash_code = 0 }) 7 1234

-- "2022-07-05T04:03:02Z"
summer_parses : parse_iso8601 (timestamp 2022 7 5 4 3 2) ≡ pos 1656993782
unfolding parse_iso8601 timegm
summer_parses = refl

parse_iso8601_lem_example :
    parse_iso8601 (timestamp 2022 7 5 4 3 2)
    ≡ sub_ℕ (86400 * civil_day 2022 (7 - 1) 5 + 3600 * 4 + 60 * 3 + 2) (86400 * 719162)
parse_iso8601_lem_example =
    parse_iso8601_lem 2022 7 5 4 3 2 (omega arith) (omega arith) (omega arith) (omega arith)
      (omega arith) (omega arith) (omega arith) (omega arith) (omega arith)
