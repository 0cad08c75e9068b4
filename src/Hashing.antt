-- ===== src/Hashing.antt =====
-- src/hashing.c: the hash functions over a byte array, and the choice that src/config.h makes.
-- xxHash is a library of its own (xxhash.h), and is a parameter.
pub mod Compose
use fluffy_vm.Prelude.{ℕ, ◌+◌, ◌*◌, ◌%◌, bit_xor, Bool, true, false, List, [], ◌∷◌, if◌then◌else◌}
use fluffy_vm.Prelude.Int.{word}

-- FLUFFYVM_HASH_USE_FNV, FLUFFYVM_HASH_USE_OPENJDK8 and FLUFFYVM_HASH_USE_XXHASH.
abbrev use_fnv : Bool
use_fnv = false

abbrev use_openjdk8 : Bool
use_openjdk8 = false

abbrev use_xxhash : Bool
use_xxhash = true

abbrev pub fnv_offset_basis : ℕ
fnv_offset_basis = 0xCBF29CE484222325

abbrev pub fnv_prime : ℕ
fnv_prime = 0x00000100000001B3

abbrev pub xxhash_seed : ℕ
xxhash_seed = 0x55775520

-- The loops, from the hash so far.
unfoldable pub fnv_from : ℕ → List ℕ → ℕ
fnv_from hash [] = hash
fnv_from hash (b ∷ bs) = fnv_from ((bit_xor hash b * fnv_prime) % word) bs

unfoldable pub hash_fnv : List ℕ → ℕ
hash_fnv bytes = fnv_from fnv_offset_basis bytes

unfoldable pub openjdk8_from : ℕ → List ℕ → ℕ
openjdk8_from hash [] = hash
openjdk8_from hash (b ∷ bs) = openjdk8_from ((31 * hash + b) % word) bs

unfoldable pub hash_openjdk8 : List ℕ → ℕ
hash_openjdk8 bytes = openjdk8_from 0 bytes

-- `XXH64(data, size, seed)` is given; its result is a uint64_t.
unfoldable pub hash_xxhash : (List ℕ → ℕ → ℕ) → List ℕ → ℕ
hash_xxhash xxh64 bytes = xxh64 bytes xxhash_seed % word

-- One of the three is selected, or src/config.h does not compile.
unfoldable pub hash_default : (List ℕ → ℕ → ℕ) → List ℕ → ℕ
hash_default xxh64 bytes =
    if use_fnv
    then hash_fnv bytes
    else if use_openjdk8
    then hash_openjdk8 bytes
    else hash_xxhash xxh64 bytes
