-- ===== src/Tests/Machine.antt =====
-- A machine whose doubles are natural numbers, for the tests, in place of the host's own arithmetic.
use fluffy_vm.Prelude.{ℕ, ◌+◌, ◌-◌, ◌*◌, ◌/◌, ◌%◌, ◌^◌, [], get_or, ◌==◌, leb}
use fluffy_vm.Prelude.Int.{pos, pos_part}
use fluffy_vm.Value.{Host, number}

-- Its XXH64 is the first byte.
abbrev pub machine : Host ℕ
machine = record {
  add = λ a b. a + b;
  sub = λ a b. a - b;
  mul = λ a b. a * b;
  div = λ a b. a / b;
  fmod = λ a b. a % b;
  pow = λ a b. a ^ b;
  equal = λ a b. a == b;
  le = λ a b. leb a b;
  of_long = pos_part;
  to_long = pos;
  to_int = λ n. n;
  floor = λ a. a;
  bits = λ a. a;
  print = λ a. [];
  strtod = λ s. number 0;
  xxh64 = λ bytes seed. get_or bytes 0 0;
}
