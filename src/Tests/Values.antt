-- ===== src/Tests/Values.antt =====
-- Hashing, equality, arithmetic and the instruction word at concrete values.
use fluffy_vm.Prelude.{
  not, ◌&&◌, bit_and, ◌==◌, ℕ, ◌+◌, ◌-◌, ◌*◌, ◌%◌, ◌<◌, ◌≡◌, inl, refl, arith, true, List, [], ◌∷◌,
}
use fluffy_vm.Prelude.Int.{word, abs, to_signed}
use fluffy_vm.Prelude.Run.{done}
use fluffy_vm.Interpreter.Decode.{is_skipped, is_skipped_lem}
use fluffy_vm.Hashing.{hash_default, hash_xxhash, hash_openjdk8}
use fluffy_vm.Hashing.Compose.{hash_openjdk8-poly}
use fluffy_vm.Value.{Str, long, string}
use fluffy_vm.Value.Hash.{hash_code, string_hash, IsCoherent}
use fluffy_vm.Value.Equal.{equals}
use fluffy_vm.Value.Equal.Laws.{hash_code_congr}
use fluffy_vm.Value.Math.{math_div, math_mod}
use fluffy_vm.Value.Math.Laws.{div_mod_lem}
use fluffy_vm.Tests.Machine.{machine}

abbrev bytes_hi : List ℕ
bytes_hi = 104 ∷ 105 ∷ []

hash_openjdk8-poly_example : hash_openjdk8 bytes_hi ≡ 3329
hash_openjdk8-poly_example = hash_openjdk8-poly bytes_hi

-- "hi" at two addresses, once with its hash cached.
abbrev hi : Str
hi = record { address = 1; bytes = bytes_hi; hash_code = 0 }

abbrev hi_cached : Str
hi_cached = record { address = 2; bytes = bytes_hi; hash_code = 104 }

hi-IsCoherent : IsCoherent machine (string hi) × IsCoherent machine (string hi_cached)
unfolding string_hash hash_default hash_xxhash
hi-IsCoherent = (refl, refl)

hi-equals : equals machine (string hi) (string hi_cached) ≡ done true
unfolding equals hash_default hash_xxhash
hi-equals = refl

hash_code_congr_example : hash_code machine (string hi) ≡ hash_code machine (string hi_cached)
hash_code_congr_example = hash_code_congr machine (string hi) (string hi_cached) tt hi-equals

-- -7 by 2.
div_mod_lem_example :
    (q r : ℕ) × (math_div machine (long (word - 7)) (long 2) ≡ done (long q))
    × (math_mod machine (long (word - 7)) (long 2) ≡ done (long r))
    × ((2 * q + r) % word ≡ word - 7)
    × (abs (to_signed r) < abs (to_signed 2))
div_mod_lem_example =
    div_mod_lem machine (word - 7) 2 (omega arith) (omega arith) (omega arith) (inl (omega arith))

is_skipped_lem_example :
    is_skipped 19 2 ≡ (not (bit_and 19 15 == 0) && bit_and 2 (bit_and 19 15) == 0)
is_skipped_lem_example = is_skipped_lem 19 2 (omega arith) (omega arith)
